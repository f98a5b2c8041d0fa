-- ===== src/Gossip/Handlers.antt =====
-- The rumor handlers of code/gossiper.go keep the vector clock sound.
use blockchain_sybil_attack.Base.{
  ℕ, ◌≡◌, refl, Bool, true, false, not, Option, none, some, [], ◌==◌, nat_eq, text_eq,
  if◌then◌else◌, Outcome, ok, panic, ◌>>=◌, arith, Bool-cases, inl, inr, ◌∙◌,
}
use blockchain_sybil_attack.Base.Int.{ℤ, succ_ℤ}
use blockchain_sybil_attack.Messages.{Address, RumorMessage, Gossiper}
use blockchain_sybil_attack.Node.{Net, State, send, pick_random_peer}
use blockchain_sybil_attack.Routing.{
  update_routing_table, add_peer, add_peer_from_last, overwrite_last,
}
use blockchain_sybil_attack.Gossip.{msg_already_seen}
use blockchain_sybil_attack.Gossip.Spreading.{
  send_rumor_to, send_status_to, wait_for_ack, send_rumor_to_random, receives_new_text,
  receives_rumor_from_peer, receives_rumor_from_client,
}
use blockchain_sybil_attack.Gossip.Clock.{Sound, record_rumor, record_rumor-Sound}

-- Two states with the same rumors and the same vector clock.
pub record SameClock (s t : State) : Type 0 where
  pub same_seen : t.msgs_seen ≡ s.msgs_seen
  pub same_clock : t.vector_clock ≡ s.vector_clock

pub SameClock-trans : (s t u : State) → SameClock s t → SameClock t u → SameClock s u
SameClock-trans s t u x y = record {
  same_seen = y.same_seen ∙ x.same_seen;
  same_clock = y.same_clock ∙ x.same_clock;
}

pub send_rumor_to_random-SameClock :
    (r : ℕ) (rumor : RumorMessage) (s s' : State)
    → send_rumor_to_random r rumor s ≡ ok s'
    → SameClock s s'
unfolding send_rumor_to_random send_rumor_to wait_for_ack send
send_rumor_to_random-SameClock r rumor s s' e = ground arith

pub update_routing_table-SameClock :
    (s : State) (rumor : RumorMessage) (from : Address)
    → SameClock s (update_routing_table s rumor from).0
unfolding update_routing_table
update_routing_table-SameClock s rumor from = ground arith

pub add_peer_from_last-SameClock :
    (net : Net) (s : State) (rumor : RumorMessage) → SameClock s (add_peer_from_last net s rumor)
unfolding add_peer_from_last add_peer
add_peer_from_last-SameClock net s rumor = ground arith

-- A property of the rumors and the vector clock, which the recording of a new rumor keeps.
module _ (P : State → Type 0) (same_P : (s t : State) → SameClock s t → P s → P t)
    (record_P : (now : ℤ) (s : State) (rumor : RumorMessage)
      → msg_already_seen s rumor ≡ false
      → P s
      → P (record_rumor now s rumor)) where
  -- The last `if` of the handlers, on a test that comes out as `forwards`.
  module _ (r : ℕ) (rumor : RumorMessage) (s s' : State) where
    mongered :
        (forwards : Bool)
        → (if forwards then send_rumor_to_random r rumor s else ok s) ≡ ok s'
        → P s
        → P s'
    mongered false e h = let same : s' ≡ s = ground arith in rw same h
    mongered true e h = same_P s s' (send_rumor_to_random-SameClock r rumor s s' e) h

    answered :
        (from : Address) (forwards : Bool)
        → (if forwards
            then (send_rumor_to_random r rumor s >>= λ sent. ok (send_status_to sent from))
            else ok s)
          ≡ ok s'
        → P s
        → P s'
    answered from false e h = let same : s' ≡ s = ground arith in rw same h
    answered from true e h = sent (send_rumor_to_random r rumor s) refl
      where
        sent : (o : Outcome State) → send_rumor_to_random r rumor s ≡ o → P s'
        sent (panic p) m = absurd (ground arith)
        sent (ok t) m =
            let last : s' ≡ send_status_to t from = ground arith in
            rw last (
              same_P t (send_status_to t from)
                (unfold send_status_to send in record { same_seen = refl; same_clock = refl })
                (same_P s t (send_rumor_to_random-SameClock r rumor s t m) h))

  module _ (now : ℤ) (r : ℕ) (from : Address) where
    receives_new_text-keeps :
        (rumor : RumorMessage) (s s' : State)
        → msg_already_seen s rumor ≡ false
        → receives_new_text now r rumor from s ≡ ok s'
        → P s
        → P s'
    receives_new_text-keeps rumor s s' new e h =
        let routed = (update_routing_table s rumor from).0 in
        let same_clock = update_routing_table-SameClock s rumor from in
        answered r rumor (record_rumor now routed rumor) s' from (not s.no_forward)
          (unfold receives_new_text in e)
          (record_P now routed rumor
            (unfold msg_already_seen in rw same_clock.same_seen (unfold msg_already_seen in new))
            (same_P s routed same_clock h))

    pub receives_rumor_from_peer-keeps :
        (net : Net) (rumor : RumorMessage) (s s' : State)
        → receives_rumor_from_peer net now r rumor from s ≡ ok s'
        → P s
        → P s'
    receives_rumor_from_peer-keeps net rumor s s' e h = marked (overwrite_last net rumor from) refl
      where
        met : State
        met = add_peer_from_last net s rumor

        sound : P met
        sound = same_P s met (add_peer_from_last-SameClock net s rumor) h

        routed : RumorMessage → State
        routed x = (update_routing_table met x from).0

        sent :
            (x : RumorMessage) (o : Option Gossiper)
            → overwrite_last net rumor from ≡ ok x
            → pick_random_peer (routed x) r ≡ o
            → (x.text == []) ≡ true
            → P s'
        sent x none m o t = absurd (unfold receives_rumor_from_peer in ground arith)
        sent x (some peer) m o t =
            let last : s' ≡ send_rumor_to (routed x) x peer.address =
              unfold receives_rumor_from_peer in ground arith in
            rw last (
              same_P (routed x) (send_rumor_to (routed x) x peer.address)
                (unfold send_rumor_to send in record { same_seen = refl; same_clock = refl })
                (same_P met (routed x) (update_routing_table-SameClock met x from) sound))

        marked : (o : Outcome RumorMessage) → overwrite_last net rumor from ≡ o → P s'
        marked (panic p) m = absurd (unfold receives_rumor_from_peer in ground arith)
        marked (ok x) m = elim (Bool-cases (x.text == [])) [
          | inl route ↦ sent x (pick_random_peer (routed x) r) m refl route
          | inr text ↦ elim (Bool-cases (msg_already_seen met x)) [
            | inl known ↦
                (let same : s' ≡ met = unfold receives_rumor_from_peer in ground arith in
                  rw same sound)
            | inr new ↦
                receives_new_text-keeps x met s' new
                  (unfold receives_rumor_from_peer in ground arith) sound
          ]
        ]

unfoldable pub IsSoundState : State → Type 0
IsSoundState s = Sound s.msgs_seen s.vector_clock.want

Sound-same : (s t : State) → SameClock s t → IsSoundState s → IsSoundState t
unfolding IsSoundState
Sound-same s t x h = rw (x.same_seen, x.same_clock) h

Sound-record :
    (now : ℤ) (s : State) (rumor : RumorMessage)
    → msg_already_seen s rumor ≡ false
    → IsSoundState s
    → IsSoundState (record_rumor now s rumor)
unfolding IsSoundState
Sound-record now s rumor _ h = record_rumor-Sound now s rumor h

module _ (now : ℤ) (r : ℕ) (rumor : RumorMessage) where
  -- A rumor of this node's client keeps the vector clock sound: afterwards too, of each origin
  -- every rumor below its next identifier is stored.
  pub receives_rumor_from_client-IsSound :
      (s s' : State)
      → receives_rumor_from_client now r rumor s ≡ ok s'
      → IsSoundState s
      → IsSoundState s'
  receives_rumor_from_client-IsSound s s' e h =
      let own = record rumor { origin = s.me.identifier; id = s.client_next_id } in
      let counted = record s { client_next_id = succ_ℤ s.client_next_id } in
      mongered IsSoundState Sound-same Sound-record r own (record_rumor now counted own) s'
        (not s.no_forward) (unfold receives_rumor_from_client in e)
        (unfold IsSoundState in record_rumor-Sound now counted own (unfold IsSoundState in h))

-- A rumor from a peer keeps the vector clock sound: afterwards too, of each origin every rumor below
-- its next identifier is stored.
pub receives_rumor_from_peer-IsSound :
    (net : Net) (now : ℤ) (r : ℕ) (from : Address) (rumor : RumorMessage) (s s' : State)
    → receives_rumor_from_peer net now r rumor from s ≡ ok s'
    → IsSoundState s
    → IsSoundState s'
receives_rumor_from_peer-IsSound net now r from rumor =
    receives_rumor_from_peer-keeps IsSoundState Sound-same Sound-record now r from net rumor
