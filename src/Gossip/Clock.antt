-- ===== src/Gossip/Clock.antt =====
-- The vector clock of code/helper.go never promises a rumor that is not stored.
use blockchain_sybil_attack.Base.{
  ℕ, zero, suc, ◌+◌, ◌≤◌, ◌<◌, ◌≡◌, ◌⊎◌, refl, Bool, true, false, Option, none, some, List, [], ◌∷◌,
  ◌++◌, Text, Map, get, get-put, is_some, All, ◌==◌, ==_iff, ==_refl, nat_eq, nat_eqb, text_eq,
  if◌then◌else◌, arith, inl, inr, Bool-cases,
}
use blockchain_sybil_attack.Base.Int.{ℤ, pos, negsuc, int_eq, succ_ℤ}
use blockchain_sybil_attack.Messages.{RumorMessage, PeerStatus, StatusPacket}
use blockchain_sybil_attack.Node.{RumorMessageKey, key_eq, StoredRumor, State}
use blockchain_sybil_attack.Gossip.{
  get_key, find_from, find_peer_status, advance_at, update_vector_clock, msg_already_seen,
  add_msg_seen,
}

abbrev pub Seen : Type 0
Seen = Map RumorMessageKey StoredRumor

abbrev pub is_seen : Seen → Text → ℤ → Bool
is_seen seen o id = is_some (get seen (record { origin = o; id = id }))

-- A status is at least 1, and every rumor below it is stored.
abbrev pub Covers : Seen → Text → ℤ → Type 0
Covers seen o (pos n) = (1 ≤ n) × ((k : ℕ) → 1 ≤ k → k < n → is_seen seen o (pos k) ≡ true)
Covers seen o (negsuc n) = ⊥

abbrev pub Sound : Seen → List PeerStatus → Type 0
Sound seen = All (λ st. Covers seen st.identifier st.next_id)

pub find_from-suc :
    (i : ℕ) (want : List PeerStatus) (o : Text)
    → find_from (i + 1) want o ≡ elim (find_from i want o) [ none ↦ none | some k ↦ some (suc k) ]
unfolding find_from
find_from-suc i [] o = refl
find_from-suc i (st ∷ rest) o = ground (arith, find_from-suc (i + 1) rest o)

find_from-zero :
    (st : PeerStatus) (rest : List PeerStatus) (o : Text)
    → find_from 0 (st ∷ rest) o ≡ some 0
    → st.identifier ≡ o
unfolding find_from
find_from-zero st rest o f = ground (arith, find_from-suc 0 rest o, ==_iff st.identifier o)

find_from-rest :
    (st : PeerStatus) (rest : List PeerStatus) (o : Text) (i : ℕ)
    → find_from 0 (st ∷ rest) o ≡ some (suc i)
    → find_from 0 rest o ≡ some i
unfolding find_from
find_from-rest st rest o i f = ground (arith, find_from-suc 0 rest o)

-- What the storing of one more rumor adds.
module _ (seen more : Seen) (o : Text) (id : ℤ)
    (kept : (j : Text) (k : ℤ) → is_seen seen j k ≡ true → is_seen more j k ≡ true)
    (new : is_seen more o id ≡ true) where
  Covers-more : (j : Text) (n : ℤ) → Covers seen j n → Covers more j n
  Covers-more j (pos n) (p, c) = (p, λ k a b. kept j (pos k) (c k a b))
  Covers-more j (negsuc n) c = c

  Sound-more : (want : List PeerStatus) → Sound seen want → Sound more want
  Sound-more [] s = tt
  Sound-more (st ∷ want) (c, s) = (Covers-more st.identifier st.next_id c, Sound-more want s)

  Covers-succ : (n : ℤ) → id ≡ n → Covers seen o n → Covers more o (succ_ℤ n)
  Covers-succ (pos n) e (p, c) = (omega arith, λ k a b. below k a b (Bool-cases (nat_eqb k n)))
    where
      below :
          (k : ℕ)
          → 1 ≤ k
          → k < n + 1
          → (nat_eqb k n ≡ true) ⊎ (nat_eqb k n ≡ false)
          → is_seen more o (pos k) ≡ true
      below k a b (inl same) = let q : k ≡ n = ground arith in rw q (rw e at new)
      below k a b (inr other) = kept o (pos k) (c k a (ground arith))
  Covers-succ (negsuc n) e c = absurd c

  Sound-advance_at :
      (want : List PeerStatus) (i : ℕ)
      → find_from 0 want o ≡ some i
      → Sound seen want
      → Sound more (advance_at want i id)
  unfolding advance_at
  Sound-advance_at [] i f s = tt
  Sound-advance_at (st ∷ rest) zero f (c, s) =
      (advanced (find_from-zero st rest o f) (Bool-cases (id == st.next_id)), Sound-more rest s)
    where
      advanced :
          st.identifier ≡ o
          → ((id == st.next_id) ≡ true) ⊎ ((id == st.next_id) ≡ false)
          → Covers more st.identifier (if id == st.next_id then succ_ℤ st.next_id else st.next_id)
      advanced named (inl next) =
          rw (next, named) (Covers-succ st.next_id ((==_iff id st.next_id).0 next) (rw named at c))
      advanced named (inr other) = rw other (Covers-more st.identifier st.next_id c)
  Sound-advance_at (st ∷ rest) (suc i) f (c, s) = (
    Covers-more st.identifier st.next_id c,
    Sound-advance_at rest i (find_from-rest st rest o i f) s,
  )

Sound-append :
    (seen : Seen) (want : List PeerStatus) (st : PeerStatus)
    → Sound seen want
    → Covers seen st.identifier st.next_id
    → Sound seen (want ++ st ∷ [])
Sound-append seen [] st s c = (c, tt)
Sound-append seen (x ∷ want) st s c = (s.0, Sound-append seen want st s.1 c)

-- The status that a first rumor of an origin makes.
Covers-first :
    (seen : Seen) (o : Text) (id : ℤ)
    → is_seen seen o id ≡ true
    → Covers seen o (if id == pos 1 then pos 2 else pos 1)
Covers-first seen o id new = elim (Bool-cases (id == pos 1)) [
  | inl one ↦ rw one (
    omega arith,
    λ k a b.
        let q : k ≡ 1 = omega arith in
        let e : id ≡ pos 1 = (==_iff id (pos 1)).0 one in rw q (rw e at new),
  )
  | inr other ↦ rw other (omega arith, λ k a b. absurd (omega arith))
]

unfoldable pub first_status : RumorMessage → PeerStatus
first_status rumor = record {
  identifier = rumor.origin;
  next_id = if rumor.id == pos 1 then pos 2 else pos 1;
}

pub update_vector_clock-new :
    (clock : StatusPacket) (rumor : RumorMessage)
    → find_peer_status clock.want rumor.origin ≡ none
    → update_vector_clock clock rumor ≡ record { want = clock.want ++ first_status rumor ∷ [] }
unfolding update_vector_clock first_status
update_vector_clock-new clock rumor f = ground arith

pub update_vector_clock-known :
    (clock : StatusPacket) (rumor : RumorMessage) {i : ℕ}
    → find_peer_status clock.want rumor.origin ≡ some i
    → update_vector_clock clock rumor ≡ record { want = advance_at clock.want i rumor.id }
unfolding update_vector_clock
update_vector_clock-known clock rumor f = ground arith

-- `updateVectorClock` and `addMsgSeen`, as the handlers call them.
abbrev pub record_rumor : ℤ → State → RumorMessage → State
record_rumor now s rumor =
    add_msg_seen now (record s { vector_clock = update_vector_clock s.vector_clock rumor }) rumor

module _ (now : ℤ) (s : State) (rumor : RumorMessage) where
  pub vector_clock-record :
      (record_rumor now s rumor).vector_clock ≡ update_vector_clock s.vector_clock rumor
  unfolding add_msg_seen
  vector_clock-record = ground arith

  pub seen-record :
      (o : Text) (id : ℤ)
      → is_seen s.msgs_seen o id ≡ true
      → is_seen (record_rumor now s rumor).msgs_seen o id ≡ true
  unfolding add_msg_seen
  seen-record o id h = ground (
    arith,
    get-put s.msgs_seen (get_key rumor) (record { origin = o; id = id })
        (record { origin = rumor.origin; id = rumor.id; text = rumor.text; time_added = now }),
  )

  pub new-record : is_seen (record_rumor now s rumor).msgs_seen rumor.origin rumor.id ≡ true
  unfolding add_msg_seen msg_already_seen
  new-record = ground (
    arith,
    ==_refl (get_key rumor),
    get-put s.msgs_seen (get_key rumor) (get_key rumor)
        (record { origin = rumor.origin; id = rumor.id; text = rumor.text; time_added = now }),
  )

  -- When a rumor is recorded, the vector clock stays sound: every status is at least 1, and of each
  -- origin every rumor below its next identifier is stored.
  pub record_rumor-Sound :
      Sound s.msgs_seen s.vector_clock.want
      → Sound (record_rumor now s rumor).msgs_seen (record_rumor now s rumor).vector_clock.want
  record_rumor-Sound h =
      rw vector_clock-record (updated (find_peer_status s.vector_clock.want rumor.origin) refl)
    where
      more : Seen
      more = (record_rumor now s rumor).msgs_seen

      updated :
          (o : Option ℕ)
          → find_peer_status s.vector_clock.want rumor.origin ≡ o
          → Sound more (update_vector_clock s.vector_clock rumor).want
      updated none f = rw (update_vector_clock-new s.vector_clock rumor f) (
          unfold first_status in
          Sound-append more s.vector_clock.want (first_status rumor)
            (Sound-more s.msgs_seen more rumor.origin rumor.id seen-record new-record
              s.vector_clock.want h)
            (Covers-first more rumor.origin rumor.id new-record))
      updated (some i) f = rw (update_vector_clock-known s.vector_clock rumor f) (
          Sound-advance_at s.msgs_seen more rumor.origin rumor.id seen-record new-record
            s.vector_clock.want i (unfold find_peer_status in f) h)
