-- ===== src/Client.antt =====
-- code/client/client.go: what the command-line client writes to its socket, and where to.
pub mod Packets
pub mod Command
mod Tests
use blockchain_sybil_attack.Base.{
  ℕ, ◌+◌, ◌-◌, ◌%◌, ◌^◌, none, some, [], ◌++◌, Text, Bytes, ◌==◌, nat_eq, text_eq, codes,
  if◌then◌else◌, Outcome, ok, ◌>>=◌,
}
use blockchain_sybil_attack.Base.Words.{split}
use blockchain_sybil_attack.Base.Int.{ℤ, pos, negsuc}
use blockchain_sybil_attack.Messages.{Address}
use blockchain_sybil_attack.Client.Packets.{GossipPacket, no_message, Codec}
use blockchain_sybil_attack.Routing.{itoa_int}
use blockchain_sybil_attack.Files.Transfer.Fetching.{hash_bytes}

-- The values of the flags.
pub record Flags : Type 0 where
  pub ui_port : ℤ
  pub msg_text : Text
  pub dest : Text
  pub file : Text
  pub request : Text
  pub keywords : Text
  pub budget : ℤ

-- `uint64(n)` of an `int`.
abbrev pub uint64_of : ℤ → ℕ
uint64_of (pos n) = n % 2 ^ 64
uint64_of (negsuc n) = 2 ^ 64 - 1 - n % 2 ^ 64

-- The message of `main`.
unfoldable pub packet_of : Flags → Outcome GossipPacket
unfolding hash_bytes
packet_of flags =
    if flags.file == []
    then ok (
        if flags.keywords == []
        then if flags.dest == []
          then record no_message {
            rumor = some (record { origin = []; id = pos 1; text = flags.msg_text });
          }
          else record no_message {
            message = some (record {
              origin = [];
              id = pos 0;
              text = flags.msg_text;
              dest = flags.dest;
              hop_limit = 10;
            });
          }
        else record no_message {
          s_request = some (record {
            origin = [];
            budget = uint64_of flags.budget;
            keywords = split 44 flags.keywords;
          });
        })
    else if flags.request == []
    then ok (record no_message {
      message =
          some (record { origin = []; id = negsuc 0; text = flags.file; dest = []; hop_limit = 0 });
    })
    else do
      bytes ← hash_bytes flags.request
      ok (record no_message {
        d_request = some (record {
          origin = [];
          destination = flags.dest;
          hop_limit = 10;
          file_name = flags.file;
          hash_value = bytes;
        });
      })

-- What is written to a socket, and where it is sent.
pub record Written : Type 0 where
  pub bytes : Bytes
  pub dest : Address

-- `send`, which writes no bytes when the message cannot be encoded.
unfoldable pub send : Codec → GossipPacket → Address → Written
send codec msg dest_addr = record {
  bytes = elim (codec.encode msg) [ none ↦ [] | some packet_bytes ↦ packet_bytes ];
  dest = dest_addr;
}

-- `main`, in which `ResolveUDPAddr` gives an address that is written as its text.
unfoldable pub client_main : Codec → Flags → Outcome Written
unfolding packet_of itoa_int send
client_main codec flags = do
  msg ← packet_of flags
  ok (send codec msg (codes "127.0.0.1:" ++ itoa_int flags.ui_port))
