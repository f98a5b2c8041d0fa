-- ===== src/Client/Command.antt =====
-- What a command of code/client/client.go does at the gossiper of code/gossiper.go that gets it.
use blockchain_sybil_attack.Base.{
  ℕ, zero, suc, refl, ◌≤◌, length, take, Bytes, ◌≡◌, ap, ◌∙◌, true, false, none, some, Option, List,
  [], ◌∷◌, All, codes, Text, ◌==◌, ==_refl, nat_eq, text_eq, if◌then◌else◌, Outcome, ok, ◌>>=◌,
  arith,
}
use blockchain_sybil_attack.Base.Words.{split, join}
use blockchain_sybil_attack.Base.Split.{Free, split-join}
use blockchain_sybil_attack.Base.Int.{pos}
use blockchain_sybil_attack.Chain.Platform.{Platform}
use blockchain_sybil_attack.Messages
use blockchain_sybil_attack.Client.Packets.{GossipPacket, no_message, as_read, Codec}
use blockchain_sybil_attack.Node.{State}
use blockchain_sybil_attack.Routing.{print_peers}
use blockchain_sybil_attack.Routing.Private.{send_private_message, send_private_message_cli}
use blockchain_sybil_attack.Gossip.Spreading.{receives_rumor_from_client}
use blockchain_sybil_attack.Search.{begin_search}
use blockchain_sybil_attack.Files.Transfer.Fetching.{
  hash_bytes, download, download_gui, receives_data_request_from_client,
}
use blockchain_sybil_attack.Dispatch.Clients.{
  Desk, Handled, quiet, searching, nothing, with_fetch, add_file_named, receive_client_packet,
  read_client_packet, receives_private_message_from_client, receives_search_request_from_client,
}
use blockchain_sybil_attack.Client.{Flags, uint64_of, packet_of, Written, send, client_main}

-- What the flags ask of the gossiper.
pub data Command : Type 0 where
  say : (text : Text) → Command
  whisper : (text dest : Text) → Command
  look_for : (keywords : List Text) → (budget : ℕ) → Command
  share : (name : Text) → Command
  fetch : (name : Text) → (request : Text) → (dest : Text) → Command

abbrev pub command_of : Flags → Command
command_of flags =
    if flags.file == []
    then if flags.keywords == []
      then if flags.dest == [] then say flags.msg_text else whisper flags.msg_text flags.dest
      else look_for (split 44 flags.keywords) (uint64_of flags.budget)
    else if flags.request == []
    then share flags.file
    else fetch flags.file flags.request flags.dest

take-all : (d : Bytes) (n : ℕ) → length d ≤ n → take n d ≡ d
take-all [] zero le = refl
take-all [] (suc n) le = refl
take-all (b ∷ d) zero le = absurd (omega (arith, le))
take-all (b ∷ d) (suc n) le = ap (λ t. b ∷ t) (take-all d n (omega arith))

module _ (lib : Platform) (desk : Desk) where
  pub carry_out : Command → State → Outcome Handled
  carry_out (say text) s = print_peers s >>= λ shown.
      receives_rumor_from_client desk.seconds desk.random
        (record { origin = []; id = pos 1; text = text; last_ip = none; last_port = none }) s
      >>= (λ t. ok (quiet t))
  carry_out (whisper text dest) s = ok (quiet (send_private_message desk.seconds s text dest).0)
  carry_out (look_for keywords budget) s = ok (record {
    state = begin_search s budget;
    started = if s.search_in_progress then nothing else searching keywords budget;
  })
  carry_out (share name) s = add_file_named lib desk name s >>= (λ t. ok (quiet t))
  carry_out (fetch name request dest) s = hash_bytes request >>= (λ bytes.
      (if dest == []
        then download_gui s name desk.channel
        else ok (some (download s name bytes dest desk.channel)))
      >>= (λ found. ok (with_fetch s found)))

  -- The packet that the client makes has the gossiper do what the flags ask for.
  packet_of-command :
      (flags : Flags) (s : State)
      → (packet_of flags >>= λ p. receive_client_packet lib desk s (as_read p))
        ≡ carry_out (command_of flags) s
  unfolding packet_of receive_client_packet carry_out receives_private_message_from_client
      receives_search_request_from_client receives_data_request_from_client send_private_message
      send_private_message_cli
  packet_of-command flags s = ground arith

  read_client_packet-decoded :
      (decode : Bytes → Option Messages.GossipPacket) (b : Bytes) (s : State)
      (p : Messages.GossipPacket)
      → decode (take 1024 b) ≡ some p
      → read_client_packet lib desk decode b s ≡ receive_client_packet lib desk s p
  unfolding read_client_packet
  read_client_packet-decoded decode b s p e = ground arith

  -- When the client's packet can be encoded, in 1024 bytes at most, what it writes makes the gossiper
  -- that reads it do what the flags ask for: to share a file, to download one, to search, to send a
  -- private message or else a rumor.
  pub client_command :
      (codec : Codec) (flags : Flags) (s : State) (p : GossipPacket) (w : Written) (d : Bytes)
      → packet_of flags ≡ ok p
      → codec.encode p ≡ some d
      → length d ≤ 1024
      → client_main codec flags ≡ ok w
      → read_client_packet lib desk codec.decode w.bytes s ≡ carry_out (command_of flags) s
  unfolding client_main send
  client_command codec flags s p w d made encoded short sent =
      let bytes : w.bytes ≡ d = ground arith in
      let whole : take 1024 d ≡ d = take-all d 1024 short in
      let heard : receive_client_packet lib desk s (as_read p) ≡ carry_out (command_of flags) s =
        rw made at (packet_of-command flags s) in
      let read : codec.decode (take 1024 w.bytes) ≡ some (as_read p) =
        ap codec.decode (ap (take 1024) bytes ∙ whole) ∙ codec.read_back p d encoded in
      read_client_packet-decoded codec.decode w.bytes s (as_read p) read ∙ heard

search_packet : Flags → List Text → GossipPacket
search_packet flags keywords = record no_message {
  s_request = some (record { origin = []; budget = uint64_of flags.budget; keywords = keywords });
}

packet_of-search :
    (flags : Flags)
    → flags.file ≡ []
    → (flags.keywords == []) ≡ false
    → packet_of flags ≡ ok (search_packet flags (split 44 flags.keywords))
unfolding packet_of search_packet
packet_of-search flags no_file searched =
    let unnamed : (flags.file == []) ≡ true = rw no_file (==_refl {A = Text} []) in ground arith

-- Keywords that hold no comma are searched for as they are, when they are given joined by commas and
-- no file is named.
pub keywords_sent :
    (flags : Flags) (word : Text) (words : List Text)
    → flags.file ≡ []
    → flags.keywords ≡ join (codes ",") (word ∷ words)
    → (flags.keywords == []) ≡ false
    → Free 44 word
    → All (Free 44) words
    → packet_of flags
      ≡ ok (record no_message {
        s_request =
            some (record { origin = []; budget = uint64_of flags.budget; keywords = word ∷ words });
      })
unfolding search_packet
keywords_sent flags word words no_file joined searched free all =
    let back : split 44 flags.keywords ≡ word ∷ words =
      ap (split 44) joined ∙ split-join 44 word words free all in
    packet_of-search flags no_file searched ∙ ap (λ ks. ok (search_packet flags ks)) back
