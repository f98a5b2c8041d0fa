-- ===== src/Client/Tests.antt =====
-- The theorem about commands at the sharing of a file.
use blockchain_sybil_attack.Base.{
  ◌≡◌, refl, ap, sym, Option, Bytes, ok, arith, some, none, [], ◌∷◌, codes, ◌==◌, text_eq, text_eqb,
  if◌then◌else◌,
}
use blockchain_sybil_attack.Base.Int.{pos, negsuc}
use blockchain_sybil_attack.Dispatch.Clients.{Desk, read_client_packet}
use blockchain_sybil_attack.Client.{Flags, Written, packet_of, send, client_main}
use blockchain_sybil_attack.Client.Packets.{GossipPacket, no_message, as_read, Codec}
use blockchain_sybil_attack.Routing.{itoa_int, decimal_from}
use native.Mathlib.Decide.{ℕ_discrete}
use blockchain_sybil_attack.Client.Command.{command_of, carry_out, client_command}
use blockchain_sybil_attack.Samples.{toy, gossiper}

abbrev desk : Desk
desk = record {
  disk = λ name. if name == codes "song" then some (1 ∷ 2 ∷ 3 ∷ []) else none;
  seconds = pos 9;
  random = 0;
  channel = 4;
}

abbrev share_song : Flags
share_song = record {
  ui_port = pos 10000;
  msg_text = [];
  dest = [];
  file = codes "song";
  request = [];
  keywords = [];
  budget = pos 2;
}

abbrev song_packet : GossipPacket
song_packet = record no_message {
  message =
      some (record { origin = []; id = negsuc 0; text = codes "song"; dest = []; hop_limit = 0 });
}

GossipPacket-discrete : Discrete GossipPacket
GossipPacket-discrete = hlevel (ℕ_discrete)

-- A codec that knows this packet alone.
seven_if : {p q : GossipPacket} → Dec (p ≡ q) → Option Bytes
seven_if (yes same) = some (7 ∷ [])
seven_if (no other) = none

seven_if-inv : (p q : GossipPacket) (t : Dec (p ≡ q)) (d : Bytes) → seven_if t ≡ some d → p ≡ q
unfolding seven_if
seven_if-inv p q (yes same) d e = same
seven_if-inv p q (no other) d e = absurd (ground arith)

seven_if_same : (p : GossipPacket) (t : Dec (p ≡ p)) → seven_if t ≡ some (7 ∷ [])
unfolding seven_if
seven_if_same p (yes same) = refl
seven_if_same p (no other) = absurd (other refl)

abbrev encode_song : GossipPacket → Option Bytes
encode_song p = seven_if (GossipPacket-discrete p song_packet)

encode_song-inv : (p : GossipPacket) (d : Bytes) → encode_song p ≡ some d → p ≡ song_packet
encode_song-inv p d e = seven_if-inv p song_packet (GossipPacket-discrete p song_packet) d e

encode_song_packet : encode_song song_packet ≡ some (7 ∷ [])
encode_song_packet = seven_if_same song_packet (GossipPacket-discrete song_packet song_packet)

abbrev song_codec : Codec
song_codec = record {
  encode = encode_song;
  decode = λ d. some (as_read song_packet);
  read_back = λ p d e. ap (λ q. some (as_read q)) (sym (encode_song-inv p d e));
}

abbrev song_written : Written
song_written = record { bytes = 7 ∷ []; dest = codes "127.0.0.1:10000" }

song_made : packet_of share_song ≡ ok song_packet
unfolding packet_of text_eqb
song_made = refl

song_sent : client_main song_codec share_song ≡ ok song_written
unfolding client_main send itoa_int decimal_from packet_of text_eqb
song_sent = rw encode_song_packet refl

client_command_example :
    read_client_packet toy desk song_codec.decode (7 ∷ []) gossiper
    ≡ carry_out toy desk (command_of share_song) gossiper
client_command_example =
    client_command toy desk song_codec share_song gossiper song_packet song_written (7 ∷ [])
      song_made encode_song_packet (omega arith) song_sent
