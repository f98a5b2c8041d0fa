-- ===== src/Gossip/Blank.antt =====
-- Rumors without a text, which code/gossiper.go takes from its client as rumors and from its peers as
-- routing messages.
use blockchain_sybil_attack.Base.{
  ℕ, ◌≡◌, refl, ap, ◌∙◌, true, Option-cases, [], Text, ◌==◌, ==_refl, nat_eq, text_eq, is_some, get,
  Outcome, ok, panic, inl, inr, arith,
}
use blockchain_sybil_attack.Base.Int.{ℤ, succ_ℤ}
use blockchain_sybil_attack.Messages.{Address, RumorMessage}
use blockchain_sybil_attack.Node.{key_eq, Net, State, send, pick_random_peer}
use blockchain_sybil_attack.Routing.{update_routing_table, add_peer_from_last, overwrite_last}
use blockchain_sybil_attack.Gossip.{get_key, msg_already_seen, add_msg_seen, update_vector_clock}
use blockchain_sybil_attack.Gossip.Spreading.{
  send_rumor_to, wait_for_ack, send_rumor_to_random, receives_rumor_from_peer,
  receives_rumor_from_client,
}
use blockchain_sybil_attack.Gossip.Clock.{record_rumor, new-record, vector_clock-record}
use blockchain_sybil_attack.Gossip.Handlers.{
  SameClock, SameClock-trans, update_routing_table-SameClock, add_peer_from_last-SameClock,
}

-- The rumor as the gossiper of the client sends it on.
abbrev pub own_rumor : State → RumorMessage → RumorMessage
own_rumor s rumor = record rumor { origin = s.me.identifier; id = s.client_next_id }

overwrite_last-text :
    (net : Net) (rumor x : RumorMessage) (from : Address)
    → overwrite_last net rumor from ≡ ok x
    → x.text ≡ rumor.text
unfolding overwrite_last
overwrite_last-text net rumor x from e = ground arith

blank_from_peer :
    (net : Net) (now : ℤ) (r : ℕ) (rumor : RumorMessage) (from : Address) (q q' : State)
    → rumor.text ≡ []
    → receives_rumor_from_peer net now r rumor from q ≡ ok q'
    → SameClock q q'
unfolding receives_rumor_from_peer
blank_from_peer net now r rumor from q q' blank e = relayed (overwrite_last net rumor from) refl
  where
    met : State
    met = add_peer_from_last net q rumor

    routed : RumorMessage → State
    routed x = (update_routing_table met x from).0

    sent : (x : RumorMessage) (address : Address) → SameClock q (send_rumor_to (routed x) x address)
    sent x address =
        let known = add_peer_from_last-SameClock net q rumor in
        let kept =
          SameClock-trans q met (routed x) known (update_routing_table-SameClock met x from) in
        unfold send_rumor_to send in
        record { same_seen = kept.same_seen; same_clock = kept.same_clock }

    relayed : (o : Outcome RumorMessage) → overwrite_last net rumor from ≡ o → SameClock q q'
    relayed (panic p) m = absurd (ground arith)
    relayed (ok x) m =
        let no_text : (x.text == []) ≡ true =
          rw (overwrite_last-text net rumor x from m, blank) (==_refl {A = Text} []) in
        elim (Option-cases (pick_random_peer (routed x) r)) [
          | inl alone ↦ absurd (ground arith)
          | inr (peer, picked) ↦
              let last : q' ≡ send_rumor_to (routed x) x peer.address = ground arith in
              rw last (sent x peer.address)
        ]

client_stores :
    (now : ℤ) (r : ℕ) (rumor : RumorMessage) (s s' : State)
    → receives_rumor_from_client now r rumor s ≡ ok s'
    → SameClock
        (record_rumor now
          (record s { client_next_id = succ_ℤ s.client_next_id })
          (own_rumor s rumor))
        s'
      × (s'.client_next_id ≡ succ_ℤ s.client_next_id)
unfolding receives_rumor_from_client send_rumor_to_random send_rumor_to wait_for_ack send
    add_msg_seen
client_stores now r rumor s s' e = (ground arith, ground arith)

-- A rumor without a text that comes from the client is stored and counted by its gossiper, and takes
-- a number of its own; a peer that gets it takes it as a routing message, and stores and counts
-- nothing.
pub blank_rumor_lost :
    (net : Net) (now now' : ℤ) (r r' : ℕ) (rumor : RumorMessage) (from : Address)
    (s s' q q' : State)
    → rumor.text ≡ []
    → receives_rumor_from_client now r rumor s ≡ ok s'
    → receives_rumor_from_peer net now' r' (own_rumor s rumor) from q ≡ ok q'
    → (s'.client_next_id ≡ succ_ℤ s.client_next_id)
      × (msg_already_seen s' (own_rumor s rumor) ≡ true)
      × (s'.vector_clock ≡ update_vector_clock s.vector_clock (own_rumor s rumor))
      × (q'.msgs_seen ≡ q.msgs_seen)
      × (q'.vector_clock ≡ q.vector_clock)
unfolding msg_already_seen
blank_rumor_lost net now now' r r' rumor from s s' q q' blank stored received =
    let peer = blank_from_peer net now' r' (own_rumor s rumor) from q q' blank received in
    let (own, counted) = client_stores now r rumor s s' stored in
    let before = record s { client_next_id = succ_ℤ s.client_next_id } in
    (
      counted,
      ap (λ seen. is_some (get seen (get_key (own_rumor s rumor)))) own.same_seen
          ∙ new-record now before (own_rumor s rumor),
      own.same_clock ∙ vector_clock-record now before (own_rumor s rumor),
      peer.same_seen,
      peer.same_clock,
    )
