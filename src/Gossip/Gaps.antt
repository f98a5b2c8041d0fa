-- ===== src/Gossip/Gaps.antt =====
-- A rumor that arrives out of order stops the vector clock of code/helper.go for good.
use blockchain_sybil_attack.Base.{
  ℕ, zero, suc, ◌≡◌, ◌⊎◌, ap, refl, true, false, Option, none, some, List, [], ◌∷◌, ◌++◌, Text,
  ◌==◌, ==_iff, nat_eq, text_eq, if◌then◌else◌, ok, arith, inl, inr, Bool-cases, ◌∙◌,
}
use blockchain_sybil_attack.Base.Int.{ℤ, int_eq, succ_ℤ}
use blockchain_sybil_attack.Messages.{Address, RumorMessage, PeerStatus, StatusPacket}
use blockchain_sybil_attack.Node.{Net, key_eq, State}
use blockchain_sybil_attack.Gossip.{
  find_from, find_peer_status, advance_at, update_vector_clock, msg_already_seen,
}
use blockchain_sybil_attack.Gossip.Spreading.{receives_rumor_from_peer}
use blockchain_sybil_attack.Gossip.Clock.{
  is_seen, find_from-suc, update_vector_clock-new, update_vector_clock-known, first_status,
  record_rumor, vector_clock-record, seen-record,
}
use blockchain_sybil_attack.Gossip.Compare.{status_of}
use blockchain_sybil_attack.Gossip.Handlers.{SameClock, receives_rumor_from_peer-keeps}

-- The identifier that an origin is waited for with.
abbrev pub next_of : List PeerStatus → Text → Option ℤ
next_of want o = elim (status_of want o) [ none ↦ none | some st ↦ some st.next_id ]

pub next_of-advance_at :
    (want : List PeerStatus) (o j : Text) (i : ℕ) (id n : ℤ)
    → find_from 0 want o ≡ some i
    → next_of want j ≡ some n
    → next_of (advance_at want i id) j
      ≡ some (if o == j then (if id == n then succ_ℤ n else n) else n)
unfolding find_from advance_at status_of
next_of-advance_at [] o j i id n f e = cc
next_of-advance_at (st ∷ rest) o j zero id n f e =
    ground
      (arith, find_from-suc 0 rest o, ==_iff st.identifier o, ==_iff st.identifier j, ==_iff o j)
next_of-advance_at (st ∷ rest) o j (suc i) id n f e = ground (
  arith,
  find_from-suc 0 rest o,
  ==_iff st.identifier o,
  ==_iff st.identifier j,
  ==_iff o j,
  next_of-advance_at rest o j i id n,
)

next_of-append :
    (want : List PeerStatus) (st : PeerStatus) (j : Text) (n : ℤ)
    → next_of want j ≡ some n
    → next_of (want ++ st ∷ []) j ≡ some n
unfolding status_of
next_of-append [] st j n e = cc
next_of-append (x ∷ want) st j n e = ground (arith, next_of-append want st j n)

-- The rumor that the clock waits for has been stored already.
pub record IsStuck (o : Text) (m : ℤ) (s : State) : Type 0 where
  pub waits : next_of s.vector_clock.want o ≡ some m
  pub stored : is_seen s.msgs_seen o m ≡ true

next_of-update :
    (clock : StatusPacket) (rumor : RumorMessage) (o : Text) (m : ℤ)
    → next_of clock.want o ≡ some m
    → ((rumor.origin ≡ o) → (rumor.id ≡ m) → ⊥)
    → next_of (update_vector_clock clock rumor).want o ≡ some m
next_of-update clock rumor o m w other = updated (find_peer_status clock.want rumor.origin) refl
  where
    updated :
        (i : Option ℕ)
        → find_peer_status clock.want rumor.origin ≡ i
        → next_of (update_vector_clock clock rumor).want o ≡ some m
    updated none f =
        rw (update_vector_clock-new clock rumor f)
          (next_of-append clock.want (first_status rumor) o m w)
    updated (some i) f = rw (update_vector_clock-known clock rumor f) (
        next_of-advance_at clock.want rumor.origin o i rumor.id m (unfold find_peer_status in f) w
        ∙ ap some (same (Bool-cases (rumor.origin == o)) (Bool-cases (rumor.id == m))))
      where
        same :
            ((rumor.origin == o) ≡ true) ⊎ ((rumor.origin == o) ≡ false)
            → ((rumor.id == m) ≡ true) ⊎ ((rumor.id == m) ≡ false)
            → (if rumor.origin == o then (if rumor.id == m then succ_ℤ m else m) else m) ≡ m
        same (inr no_origin) _ = rw no_origin
        same (inl origin) (inr no_id) = rw (origin, no_id)
        same (inl origin) (inl id) =
            absurd (other ((==_iff rumor.origin o).0 origin) ((==_iff rumor.id m).0 id))

module _ (o : Text) (m : ℤ) where
  IsStuck-same : (s t : State) → SameClock s t → IsStuck o m s → IsStuck o m t
  IsStuck-same s t x h = record {
    waits = rw x.same_clock h.waits;
    stored = rw x.same_seen h.stored;
  }

  IsStuck-record :
      (now : ℤ) (s : State) (rumor : RumorMessage)
      → msg_already_seen s rumor ≡ false
      → IsStuck o m s
      → IsStuck o m (record_rumor now s rumor)
  IsStuck-record now s rumor new h = record {
    waits = rw vector_clock-record (
        next_of-update s.vector_clock rumor o m h.waits (λ p q. absurd (
          unfold msg_already_seen in
          (let known : is_seen s.msgs_seen rumor.origin rumor.id ≡ true = rw (p, q) h.stored in
            cc))));
    stored = seen-record now s rumor o m h.stored;
  }

  -- Once the rumor that the vector clock waits for has been stored out of order, no rumor from a
  -- peer, whatever it is, moves the clock's entry for that origin again.
  pub receives_rumor_from_peer-IsStuck :
      (net : Net) (now : ℤ) (r : ℕ) (from : Address) (rumor : RumorMessage) (s s' : State)
      → receives_rumor_from_peer net now r rumor from s ≡ ok s'
      → IsStuck o m s
      → IsStuck o m s'
  receives_rumor_from_peer-IsStuck net now r from rumor =
      receives_rumor_from_peer-keeps (IsStuck o m) IsStuck-same IsStuck-record now r from net rumor
