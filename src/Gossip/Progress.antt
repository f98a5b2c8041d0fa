-- ===== src/Gossip/Progress.antt =====
-- A rumor that a gossiper waits for moves its vector clock, in code/gossiper.go and code/helper.go.
use blockchain_sybil_attack.Base.{
  ℕ, zero, suc, ◌%◌, ◌<◌, ◌≤◌, ◌≡◌, refl, ap, ◌∙◌, Bool, true, false, not, Bool-cases, Option-cases,
  inl, inr, some, List, [], ◌∷◌, ◌++◌, length, length-append, get_elem?, Text, ◌==◌, nat_eq,
  text_eq, is_some, get, if◌then◌else◌, Outcome, ok, ◌>>=◌, arith,
}
use blockchain_sybil_attack.Base.Split.{Free, split-pair}
use blockchain_sybil_attack.Base.Words.{split}
use blockchain_sybil_attack.Base.Int.{ℤ, int_eq, succ_ℤ}
use blockchain_sybil_attack.Messages.{Address, RumorMessage, Gossiper}
use blockchain_sybil_attack.Node.{key_eq, Net, State, send, pick_random_peer}
use blockchain_sybil_attack.Routing.{
  update_routing_table, add_peer, add_peer_from_last, overwrite_last,
}
use blockchain_sybil_attack.Routing.Printing.{print_peers-total}
use blockchain_sybil_attack.Gossip.{get_key, update_vector_clock, msg_already_seen, add_msg_seen}
use blockchain_sybil_attack.Gossip.Spreading.{
  send_rumor_to, send_status_to, wait_for_ack, send_rumor_to_random, receives_new_text,
  receives_rumor_from_peer,
}
use blockchain_sybil_attack.Gossip.Clock.{record_rumor, vector_clock-record, new-record}
use blockchain_sybil_attack.Gossip.Handlers.{
  SameClock, SameClock-trans, add_peer_from_last-SameClock, update_routing_table-SameClock,
  send_rumor_to_random-SameClock,
}
use blockchain_sybil_attack.Gossip.Gaps.{next_of}
use blockchain_sybil_attack.Gossip.Awaited.{Awaits, next_of-awaited}

get_elem?-there :
    {A : Type 0} (xs : List A) (i : ℕ) → i < length xs → is_some (get_elem? xs i) ≡ true
get_elem?-there [] i less = absurd (omega arith)
get_elem?-there (x ∷ xs) zero less = refl
get_elem?-there (x ∷ xs) (suc i) less = get_elem?-there xs i (omega arith)

mod_less : (r n : ℕ) → 1 ≤ n → r % n < n
mod_less r n some_n = omega arith

-- A gossiper with a peer can pick one.
pick_random_peer-there :
    (s : State) (r : ℕ) → 1 ≤ length s.gossipers → is_some (pick_random_peer s r) ≡ true
unfolding pick_random_peer
pick_random_peer-there s r some_peer =
    get_elem?-there s.gossipers (r % length s.gossipers) (mod_less r (length s.gossipers) some_peer)

overwrite_last-split :
    (net : Net) (rumor : RumorMessage) (from ip port : Text)
    → split 58 from ≡ ip ∷ port ∷ []
    → overwrite_last net rumor from
      ≡ ok (record rumor { last_ip = some (net.ip_text ip); last_port = some (net.port_text port) })
unfolding overwrite_last
overwrite_last-split net rumor from ip port parts =
    let first : get_elem? (split 58 from) 0 ≡ some ip = rw parts refl in
    let second : get_elem? (split 58 from) 1 ≡ some port = rw parts refl in ground arith

add_peer_from_last-gossipers :
    (net : Net) (s : State) (rumor : RumorMessage)
    → 1 ≤ length s.gossipers
    → 1 ≤ length (add_peer_from_last net s rumor).gossipers
unfolding add_peer_from_last add_peer
add_peer_from_last-gossipers net s rumor some_peer = elim (Option-cases rumor.last_ip) [
  | inl no_ip ↦ ground arith
  | inr (ip, with_ip) ↦ elim (Option-cases rumor.last_port) [
    | inl no_port ↦ ground arith
    | inr (port, with_port) ↦
        let longer = λ (g : Gossiper). length-append s.gossipers (g ∷ []) in grind arith
  ]
]

update_routing_table-gossipers :
    (s : State) (rumor : RumorMessage) (from : Address)
    → (update_routing_table s rumor from).0.gossipers ≡ s.gossipers
unfolding update_routing_table
update_routing_table-gossipers s rumor from = ground arith

record_rumor-gossipers :
    (now : ℤ) (s : State) (rumor : RumorMessage)
    → (record_rumor now s rumor).gossipers ≡ s.gossipers
unfolding add_msg_seen
record_rumor-gossipers now s rumor = ground arith

send_rumor_to_random-returns :
    (r : ℕ) (rumor : RumorMessage) (s : State)
    → 1 ≤ length s.gossipers
    → (t : State) × (send_rumor_to_random r rumor s ≡ ok t)
unfolding send_rumor_to_random
send_rumor_to_random-returns r rumor s some_peer =
    let there = pick_random_peer-there s r some_peer in
    elim (Option-cases (pick_random_peer s r)) [
      | inl none_there ↦ absurd (ground arith)
      | inr (peer, picked) ↦
          (wait_for_ack (send_rumor_to s rumor peer.address) rumor peer.address, ground arith)
    ]

-- A new rumor is recorded, whether it is sent on or not.
receives_new_text-returns :
    (now : ℤ) (r : ℕ) (rumor : RumorMessage) (from : Address) (s : State)
    → 1 ≤ length s.gossipers
    → (t : State) × (receives_new_text now r rumor from s ≡ ok t)
      × SameClock (record_rumor now (update_routing_table s rumor from).0 rumor) t
unfolding receives_new_text
receives_new_text-returns now r rumor from s some_peer =
    let seen = record_rumor now (update_routing_table s rumor from).0 rumor in
    let peers : seen.gossipers ≡ s.gossipers =
      record_rumor-gossipers now (update_routing_table s rumor from).0 rumor
      ∙ update_routing_table-gossipers s rumor from in
    let branch : Bool → Outcome State = λ quiet.
      if not quiet
      then (send_rumor_to_random r rumor seen >>= (λ u. ok (send_status_to u from)))
      else ok seen in
    elim (Bool-cases s.no_forward) [
      | inl quiet ↦ (seen, ap branch quiet, record { same_seen = refl; same_clock = refl })
      | inr forwards ↦
          let (t, sent) = send_rumor_to_random-returns r rumor seen (rw peers some_peer) in
          let kept = send_rumor_to_random-SameClock r rumor seen t sent in
          (
            send_status_to t from,
            ap branch forwards ∙ ap (λ o. o >>= (λ u. ok (send_status_to u from))) sent,
            unfold send_status_to send in
                record { same_seen = kept.same_seen; same_clock = kept.same_clock },
          )
    ]

receives_rumor_from_peer-new :
    (net : Net) (now : ℤ) (r : ℕ) (rumor marked : RumorMessage) (from : Address) (s : State)
    → overwrite_last net rumor from ≡ ok marked
    → (marked.text == []) ≡ false
    → msg_already_seen (add_peer_from_last net s rumor) marked ≡ false
    → 1 ≤ length (add_peer_from_last net s rumor).gossipers
    → receives_rumor_from_peer net now r rumor from s
      ≡ receives_new_text now r marked from (add_peer_from_last net s rumor)
unfolding receives_rumor_from_peer
receives_rumor_from_peer-new net now r rumor marked from s over text new some_peer =
    let (shown, printed) = print_peers-total (add_peer_from_last net s rumor) some_peer in
    rw (over, text, printed, new) refl

-- A rumor with a text that a gossiper waits for, and that it has not stored, is stored, and its vector
-- clock then waits for the next one of the origin; provided that it has a peer, and that the address
-- of the sender is of an IP address of version 4 and a port.
pub awaited_rumor_advances :
    (net : Net) (now : ℤ) (r : ℕ) (rumor : RumorMessage) (ip port : Text) (s : State)
    → Free 58 ip
    → Free 58 port
    → 1 ≤ length s.gossipers
    → (rumor.text == []) ≡ false
    → msg_already_seen s rumor ≡ false
    → Awaits s.vector_clock.want rumor.origin rumor.id
    → (t : State) × (receives_rumor_from_peer net now r rumor (ip ++ 58 ∷ port) s ≡ ok t)
      × (next_of t.vector_clock.want rumor.origin ≡ some (succ_ℤ rumor.id))
      × (msg_already_seen t rumor ≡ true)
unfolding msg_already_seen
awaited_rumor_advances net now r rumor ip port s free_ip free_port some_peer text new waits =
    let from : Address = ip ++ 58 ∷ port in
    let marked : RumorMessage = record rumor {
      last_ip = some (net.ip_text ip);
      last_port = some (net.port_text port);
    } in
    let met = add_peer_from_last net s rumor in
    let known = add_peer_from_last-SameClock net s rumor in
    let over =
      overwrite_last-split net rumor from ip port (split-pair 58 ip port free_ip free_port) in
    let still_new : msg_already_seen met marked ≡ false = rw known.same_seen new in
    let met_peers = add_peer_from_last-gossipers net s rumor some_peer in
    let (t, runs, kept) = receives_new_text-returns now r marked from met met_peers in
    let routed = (update_routing_table met marked from).0 in
    let same =
      SameClock-trans s met routed known (update_routing_table-SameClock met marked from) in
    let marked_clock : update_vector_clock s.vector_clock marked
        ≡ update_vector_clock s.vector_clock rumor =
      unfold update_vector_clock in refl in
    let clock : t.vector_clock ≡ update_vector_clock s.vector_clock rumor =
      kept.same_clock
      ∙ vector_clock-record now routed marked
      ∙ ap (λ c. update_vector_clock c marked) same.same_clock
      ∙ marked_clock in
    (
      t,
      receives_rumor_from_peer-new net now r rumor marked from s over text still_new met_peers
          ∙ runs,
      rw clock (next_of-awaited s.vector_clock rumor waits),
      ap (λ seen. is_some (get seen (get_key rumor))) kept.same_seen ∙ new-record now routed marked,
    )
