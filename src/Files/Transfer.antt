-- ===== src/Files/Transfer.antt =====
-- Requests and replies for data of code/filehandler.go, and their handlers of code/gossiper.go.
pub mod Completion
pub mod Stored
pub mod Duplicates
pub mod Rounds
pub mod Asked
pub mod Exchange
pub mod Hex
pub mod Fetching
pub mod Replies
pub mod Shared
use blockchain_sybil_attack.Base.{
  ℕ, not, ◌&&◌, none, some, List, [], ◌∷◌, ◌++◌, Text, Bytes, get, put, ◌==◌, nat_eq, text_eq, hex,
  if◌then◌else◌,
}
use blockchain_sybil_attack.Chain.Platform.{Platform}
use blockchain_sybil_attack.Messages.{DataRequest, DataReply, empty_packet}
use blockchain_sybil_attack.Node.{State, send}
use blockchain_sybil_attack.Files.{hash, or_nil, get_data}

-- What was sent on a channel and not yet received.
abbrev pub queue : State → ℕ → List Bytes
queue s channel = or_nil (get s.channels channel)

unfoldable pub set_pending : State → Text → Text → ℕ → State
set_pending s peer h channel = record s {
  downloads = put s.downloads peer (record { hash = h; channel = channel });
}

unfoldable pub get_pending : State → Text → Text
get_pending s peer = elim (get s.downloads peer) [ none ↦ [] | some d ↦ d.hash ]

-- The timer is stopped, and the data is sent on the channel of the download, which takes 10000.
unfoldable pub stop_timer_and_send_data : State → Text → Bytes → State
stop_timer_and_send_data s peer content = elim (get s.downloads peer) [
  | none ↦ s
  | some d ↦ record s { channels = put s.channels d.channel (queue s d.channel ++ content ∷ []) }
]

-- When the timer goes off the same request is sent again, with the same channel.
unfoldable pub send_data_request : State → Text → Text → Bytes → ℕ → State
unfolding send set_pending
send_data_request s dest filename h channel = elim (get s.next_hops dest) [
  | none ↦ s
  | some next_hop ↦
      set_pending
        (send s
          (record empty_packet {
            d_request = some (record {
              origin = s.me.identifier;
              destination = dest;
              hop_limit = 10;
              file_name = filename;
              hash_value = h;
            });
          })
          next_hop)
        dest (hex h) channel
]

unfoldable pub forward_data_request : State → DataRequest → State
unfolding send
forward_data_request s dr = elim (get s.next_hops dr.destination) [
  | none ↦ s
  | some next_hop ↦ send s (record empty_packet { d_request = some dr }) next_hop
]

unfoldable pub forward_data_reply : State → DataReply → State
unfolding send
forward_data_reply s dr = elim (get s.next_hops dr.destination) [
  | none ↦ s
  | some next_hop ↦ send s (record empty_packet { d_reply = some dr }) next_hop
]

unfoldable pub reply_to_data_request : State → DataRequest → State
unfolding send get_data
reply_to_data_request s dr =
    let found = get_data s dr.file_name (hex dr.hash_value) in
    if not (found == [])
    then elim (get s.next_hops dr.origin) [
      | none ↦ s
      | some next_hop ↦
          send s
            (record empty_packet {
              d_reply = some (record {
                origin = s.me.identifier;
                destination = dr.origin;
                hop_limit = 10;
                file_name = dr.file_name;
                hash_value = dr.hash_value;
                content = found;
              });
            })
            next_hop
    ]
    else s

unfoldable pub handle_data_reply : Platform → State → DataReply → State
unfolding hash get_pending stop_timer_and_send_data
handle_data_reply lib s dr =
    let waiting_hash = get_pending s dr.origin in
    if not (waiting_hash == []) && waiting_hash == hex (hash lib dr.content)
    then stop_timer_and_send_data s dr.origin dr.content
    else s

unfoldable pub receives_data_request_from_peer : DataRequest → State → State
unfolding reply_to_data_request forward_data_request
receives_data_request_from_peer dr s =
    if dr.destination == s.me.identifier
    then reply_to_data_request s dr
    else forward_data_request s dr

unfoldable pub receives_data_reply_from_peer : Platform → DataReply → State → State
unfolding handle_data_reply forward_data_reply
receives_data_reply_from_peer lib dr s =
    if dr.destination == s.me.identifier
    then handle_data_reply lib s dr
    else forward_data_reply s dr
