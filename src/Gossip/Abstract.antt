-- ===== src/Gossip/Abstract.antt =====
-- The vector clocks of code/helper.go without the order of their statuses: an abstract clock says
-- which rumor of each origin is waited for, and the comparison of clocks decides its equality.
use blockchain_sybil_attack.Base.{
  ◌≡◌, ◌↔◌, ◌∙◌, refl, sym, ap, true, false, Option, none, some, List, [], ◌∷◌, Text, is_some, All,
  arith, inl, inr, Bool-cases, Option-cases, ◌==◌, ==_iff, ==_refl, text_eq,
}
use blockchain_sybil_attack.Base.Int.{ℤ, int_eq}
use blockchain_sybil_attack.Messages.{PeerStatus, StatusPacket}
use blockchain_sybil_attack.Node.{State}
use blockchain_sybil_attack.Gossip.{compare_vector_clock_with_other}
use blockchain_sybil_attack.Gossip.Compare.{status_of}
use blockchain_sybil_attack.Gossip.Gaps.{next_of}
use blockchain_sybil_attack.Gossip.Sync.{SameStatuses, AllKnown, in_sync_iff}
use blockchain_sybil_attack.Gossip.Origins.{DistinctOrigins, Distinct-status_of}
use mathlib.Core.Quot
use mathlib.Core.Quot.{Quot, Quot-set}
use native.Mathlib.Decide.{ℕ_discrete}

-- Both wait for the same rumor of every origin.
abbrev pub SameClocks : List PeerStatus → List PeerStatus → Type 0
SameClocks c d = (o : Text) → next_of c o ≡ next_of d o

abbrev pub Clock : Type 0
Clock = Quot SameClocks

abbrev pub clock_of : StatusPacket → Clock
clock_of vc = Quot.mk vc.want

next_id-set : IsSet (Option ℤ)
next_id-set = hlevel (ℕ_discrete)

-- The rumor of an origin that an abstract clock waits for.
awaited : Text → Clock → Option ℤ
awaited o = Quot.lift next_id-set (λ c. next_of c o) (λ c d h. h o)

clock_of-SameClocks : (c d : StatusPacket) → clock_of c ≡ clock_of d → SameClocks c.want d.want
unfolding awaited
clock_of-SameClocks c d e o = ap (awaited o) e

All-status_of :
    (P : PeerStatus → Type 0) (want : List PeerStatus) (o : Text) (st : PeerStatus)
    → All P want
    → status_of want o ≡ some st
    → P st × (st.identifier ≡ o)
unfolding status_of
All-status_of P [] o st all e = absurd (ground arith)
All-status_of P (x ∷ rest) o st (p, all) e = elim (Bool-cases (x.identifier == o)) [
  | inl here ↦ let same : st ≡ x = ground arith in rw same (p, (==_iff x.identifier o).0 here)
  | inr other ↦ All-status_of P rest o st all (ground arith)
]

same_clocks :
    (mine other : List PeerStatus)
    → SameStatuses mine other
    → AllKnown mine other
    → SameClocks mine other
same_clocks mine other same known o = elim (Option-cases (status_of mine o)) [
  | inl unknown ↦ elim (Option-cases (status_of other o)) [
    | inl also ↦ ground arith
    | inr (t, here) ↦
        let (there, named) =
          All-status_of (λ st. is_some (status_of mine st.identifier) ≡ true) other o t known
            here in
        absurd (let w = rw named at there in ground arith)
  ]
  | inr (st, here) ↦
      let ((t, there, same_next), named) = All-status_of _ mine o st same here in
      let found : status_of other o ≡ some t = ap (status_of other) (sym named) ∙ there in
      ground arith
]

same_statuses :
    (mine other : List PeerStatus)
    → DistinctOrigins mine
    → SameClocks mine other
    → SameStatuses mine other
same_statuses mine other distinct same = each mine (Distinct-status_of mine distinct)
  where
    each :
        (rest : List PeerStatus)
        → All (λ st. status_of mine st.identifier ≡ some st) rest
        → SameStatuses rest other
    each [] all = tt
    each (st ∷ rest) (here, all) = elim (Option-cases (status_of other st.identifier)) [
      | inl unknown ↦ absurd (ground (arith, same st.identifier))
      | inr (t, there) ↦ ((t, there, ground (arith, same st.identifier)), each rest all)
    ]

is_known :
    (other : List PeerStatus) → All (λ st. is_some (status_of other st.identifier) ≡ true) other
is_known other = each other (λ o e. e)
  where
    each :
        (rest : List PeerStatus)
        → ((o : Text) → is_some (status_of rest o) ≡ true → is_some (status_of other o) ≡ true)
        → All (λ st. is_some (status_of other st.identifier) ≡ true) rest
    each [] up = tt
    each (st ∷ rest) up = (
      up st.identifier (unfold status_of in rw (==_refl st.identifier) refl),
      each rest (λ o e. up o (unfold status_of in ground arith)),
    )

all_known : (mine other : List PeerStatus) → SameClocks mine other → AllKnown mine other
all_known mine other same = each other (is_known other)
  where
    each :
        (rest : List PeerStatus)
        → All (λ st. is_some (status_of other st.identifier) ≡ true) rest
        → AllKnown mine rest
    each [] all = tt
    each (st ∷ rest) (here, all) = (ground (arith, same st.identifier), each rest all)

-- With one status of each origin, a gossiper finds itself in sync with a vector clock exactly when the
-- two stand for the same abstract clock, whatever the order of their statuses.
pub in_sync_same_clock :
    (s : State) (vc : StatusPacket)
    → DistinctOrigins s.vector_clock.want
    → (compare_vector_clock_with_other s vc ≡ (false, none))
      ↔ (clock_of s.vector_clock ≡ clock_of vc)
in_sync_same_clock s vc distinct =
    let mine = s.vector_clock.want in
    let iff = in_sync_iff s vc in
    (
      (λ e. let (same, known) = iff.0 e in Quot.sound (same_clocks mine vc.want same known)),
      (λ e.
          let same = clock_of-SameClocks s.vector_clock vc e in
          iff.1 (same_statuses mine vc.want distinct same, all_known mine vc.want same)),
    )
