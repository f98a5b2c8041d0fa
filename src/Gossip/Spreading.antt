-- ===== src/Gossip/Spreading.antt =====
-- The handlers of rumors and statuses of code/gossiper.go, and what they send and wait for.
use blockchain_sybil_attack.Base.{
  ℕ, ◌%◌, Bool, not, ◌&&◌, Option, none, some, [], get, put, delete, is_some, ◌==◌, nat_eq, text_eq,
  if◌then◌else◌, Outcome, ok, deref, ◌>>=◌,
}
use blockchain_sybil_attack.Base.Int.{ℤ, int_eq, succ_ℤ}
use blockchain_sybil_attack.Messages.{Address, RumorMessage, StatusPacket, empty_packet}
use blockchain_sybil_attack.Node.{Net, key_eq, State, send, pick_random_peer}
use blockchain_sybil_attack.Routing.{
  print_peers, update_routing_table, add_peer_from_last, overwrite_last,
}
use blockchain_sybil_attack.Gossip.{
  update_vector_clock, msg_already_seen, add_msg_seen, compare_vector_clock_with_other,
}

unfoldable pub send_rumor_to : State → RumorMessage → Address → State
unfolding send
send_rumor_to s msg dest = send s (record empty_packet { rumor = some msg }) dest

unfoldable pub send_status_to : State → Address → State
unfolding send
send_status_to s dest = send s (record empty_packet { status = some s.vector_clock }) dest

unfoldable pub wait_for_ack : State → RumorMessage → Address → State
wait_for_ack s msg from = record s {
  pending_acks = put s.pending_acks from (record { rumor = msg; partner = from });
}

unfoldable pub is_waiting_for_ack : State → Address → Bool
is_waiting_for_ack s from = is_some (get s.pending_acks from)

unfoldable pub get_pending_mongering : State → Address → Option RumorMessage
get_pending_mongering s from = elim (get s.pending_acks from) [
  | none ↦ none
  | some m ↦ some m.rumor
]

unfoldable pub terminate_mongering : State → Address → State
terminate_mongering s partner = record s { pending_acks = delete s.pending_acks partner }

-- `sendRumorToRandom`, with the random number `r`; with no peer it dereferences nil.
unfoldable pub send_rumor_to_random : ℕ → RumorMessage → State → Outcome State
send_rumor_to_random r rumor s = do
  peer ← deref (pick_random_peer s r)
  ok (wait_for_ack (send_rumor_to s rumor peer.address) rumor peer.address)

-- The timer of `waitForAck` fires; `coin` and `r` are its random numbers.
unfoldable pub ack_timeout : ℕ → ℕ → RumorMessage → State → Outcome State
ack_timeout coin r msg s = if (coin % 2) == 0 then send_rumor_to_random r msg s else ok s

-- What `receivesRumorFromPeer` does with a text that it has not seen.
unfoldable pub receives_new_text : ℤ → ℕ → RumorMessage → Address → State → Outcome State
receives_new_text now r rumor from s =
    let routed = (update_routing_table s rumor from).0 in
    let clocked = record routed { vector_clock = update_vector_clock routed.vector_clock rumor } in
    let seen = add_msg_seen now clocked rumor in
    if not s.no_forward
    then (do sent ← send_rumor_to_random r rumor seen; ok (send_status_to sent from))
    else ok seen

unfoldable pub receives_rumor_from_peer :
    Net → ℤ → ℕ → RumorMessage → Address → State → Outcome State
receives_rumor_from_peer net now r rumor from state = do
  let s = add_peer_from_last net state rumor
  rumor' ← overwrite_last net rumor from
  if rumor'.text == []
      then (do
        let routed = (update_routing_table s rumor' from).0
        peer ← deref (pick_random_peer routed r)
        ok (send_rumor_to routed rumor' peer.address))
      else (do
        shown ← print_peers s
        if not (msg_already_seen s rumor') then receives_new_text now r rumor' from s else ok s)

unfoldable pub receives_rumor_from_client : ℤ → ℕ → RumorMessage → State → Outcome State
receives_rumor_from_client now r rumor s =
    let own = record rumor { origin = s.me.identifier; id = s.client_next_id } in
    let counted = record s { client_next_id = succ_ℤ s.client_next_id } in
    let clocked = record counted { vector_clock = update_vector_clock counted.vector_clock own } in
    let seen = add_msg_seen now clocked own in
    if not s.no_forward then send_rumor_to_random r own seen else ok seen

-- The last `if` of `receivesStatusFromPeer`: in sync, perhaps go on with the rumor that was pending.
unfoldable pub go_on_mongering : ℕ → ℕ → Option RumorMessage → State → Outcome State
go_on_mongering coin r none s = ok s
go_on_mongering coin r (some rumor) s =
    if (coin % 2) == 0 then send_rumor_to_random r rumor s else ok s

unfoldable pub receives_status_from_peer : ℕ → ℕ → StatusPacket → Address → State → Outcome State
receives_status_from_peer coin r status from state =
    let rumor = if is_waiting_for_ack state from then get_pending_mongering state from else none in
    let s = if is_waiting_for_ack state from then terminate_mongering state from else state in
    let (not_seen, msg_to_send) = compare_vector_clock_with_other s status in
    let asked = if not_seen && not s.no_forward then send_status_to s from else s in
    elim msg_to_send [
      | some msg ↦ ok (if not s.no_forward then send_rumor_to asked msg from else asked)
      | none ↦
          if not not_seen && not s.no_forward then go_on_mongering coin r rumor asked else ok asked
    ]

-- One tick of `antiEntropy`, with the random number `r`.
unfoldable pub anti_entropy : ℕ → State → State
anti_entropy r s = elim (pick_random_peer s r) [
  | none ↦ s
  | some peer ↦ send_status_to s peer.address
]
