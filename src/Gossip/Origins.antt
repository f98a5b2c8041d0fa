-- ===== src/Gossip/Origins.antt =====
-- A vector clock of code/helper.go has one status of each origin.
use blockchain_sybil_attack.Base.{
  ℕ, zero, suc, ◌≡◌, ◌∙◌, refl, sym, ap, false, none, some, List, [], ◌∷◌, ◌++◌, Text, All, arith,
  inl, inr, Bool-cases, Option-cases, ◌==◌, ==_iff, ==_refl, text_eq, if◌then◌else◌,
}
use blockchain_sybil_attack.Base.Int.{ℤ, pos, int_eq}
use blockchain_sybil_attack.Messages.{RumorMessage, PeerStatus, StatusPacket}
use blockchain_sybil_attack.Gossip.{find_from, find_peer_status, advance_at, update_vector_clock}
use blockchain_sybil_attack.Gossip.Compare.{status_of, is_some-find_from}

-- Each origin has one status.
abbrev pub DistinctOrigins : List PeerStatus → Type 0
DistinctOrigins [] = Unit
DistinctOrigins (st ∷ rest) = (status_of rest st.identifier ≡ none) × DistinctOrigins rest

status_of-later :
    (rest : List PeerStatus) (st t : PeerStatus) (o : Text)
    → status_of rest st.identifier ≡ none
    → status_of rest o ≡ some t
    → status_of (st ∷ rest) o ≡ some t
unfolding status_of
status_of-later rest st t o new e = elim (Bool-cases (st.identifier == o)) [
  | inl here ↦
      let same : status_of rest o ≡ none =
        ap (status_of rest) (sym ((==_iff st.identifier o).0 here)) ∙ new in
      absurd (ground arith)
  | inr other ↦ rw other e
]

-- The status of each element is found, if each origin has one status.
pub Distinct-status_of :
    (want : List PeerStatus)
    → DistinctOrigins want
    → All (λ st. status_of want st.identifier ≡ some st) want
Distinct-status_of want d = all want (λ o st e. e) d
  where
    all :
        (rest : List PeerStatus)
        → ((o : Text) (st : PeerStatus) → status_of rest o ≡ some st → status_of want o ≡ some st)
        → DistinctOrigins rest
        → All (λ st. status_of want st.identifier ≡ some st) rest
    all [] up d = tt
    all (st ∷ rest) up (new, d) = (
      up st.identifier st (unfold status_of in rw (==_refl st.identifier) refl),
      all rest (λ o t e. up o t (status_of-later rest st t o new e)) d,
    )

status_of-append :
    (want : List PeerStatus) (st : PeerStatus) (o : Text)
    → status_of want o ≡ none
    → (st.identifier == o) ≡ false
    → status_of (want ++ st ∷ []) o ≡ none
unfolding status_of
status_of-append [] st o none_yet other = rw other refl
status_of-append (x ∷ want) st o none_yet other = ground (arith, status_of-append want st o)

Distinct-append :
    (want : List PeerStatus) (st : PeerStatus)
    → status_of want st.identifier ≡ none
    → DistinctOrigins want
    → DistinctOrigins (want ++ st ∷ [])
Distinct-append [] st new d = (unfold status_of in refl, tt)
Distinct-append (x ∷ want) st new (first_one, d) =
    let differ : (x.identifier == st.identifier) ≡ false = unfold status_of in ground arith in
    let later : status_of want st.identifier ≡ none = unfold status_of in ground arith in
    (
      status_of-append want st x.identifier first_one
          (ground (arith, ==_iff x.identifier st.identifier, ==_iff st.identifier x.identifier)),
      Distinct-append want st later d,
    )

status_of-advance_at :
    (want : List PeerStatus) (i : ℕ) (id : ℤ) (o : Text)
    → status_of want o ≡ none
    → status_of (advance_at want i id) o ≡ none
unfolding advance_at status_of
status_of-advance_at [] i id o e = refl
status_of-advance_at (st ∷ want) zero id o e = ground arith
status_of-advance_at (st ∷ want) (suc i) id o e = ground (arith, status_of-advance_at want i id o)

Distinct-advance_at :
    (want : List PeerStatus) (i : ℕ) (id : ℤ)
    → DistinctOrigins want
    → DistinctOrigins (advance_at want i id)
unfolding advance_at
Distinct-advance_at [] i id d = tt
Distinct-advance_at (st ∷ want) zero id d = d
Distinct-advance_at (st ∷ want) (suc i) id (new, d) =
    (status_of-advance_at want i id st.identifier new, Distinct-advance_at want i id d)

-- updateVectorClock keeps one status of each origin.
pub update_vector_clock-DistinctOrigins :
    (vc : StatusPacket) (rumor : RumorMessage)
    → DistinctOrigins vc.want
    → DistinctOrigins (update_vector_clock vc rumor).want
unfolding update_vector_clock find_peer_status
update_vector_clock-DistinctOrigins vc rumor d =
    elim (Option-cases (find_from 0 vc.want rumor.origin)) [
      | inr (i, here) ↦
          let same : (update_vector_clock vc rumor).want ≡ advance_at vc.want i rumor.id =
            ground arith in
          rw same (Distinct-advance_at vc.want i rumor.id d)
      | inl nothing ↦
          let st : PeerStatus = record {
            identifier = rumor.origin;
            next_id = if rumor.id == pos 1 then pos 2 else pos 1;
          } in
          let same : (update_vector_clock vc rumor).want ≡ vc.want ++ st ∷ [] = ground arith in
          let new : status_of vc.want rumor.origin ≡ none =
            ground (arith, is_some-find_from vc.want rumor.origin) in
          rw same (Distinct-append vc.want st new d)
    ]
