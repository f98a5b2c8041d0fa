-- ===== src/Gossip/Awaited.antt =====
-- The next rumor of an origin moves the vector clock of code/helper.go.
use blockchain_sybil_attack.Base.{
  ◌≡◌, ◌⊎◌, refl, ap, ◌∙◌, Option-cases, inl, inr, none, some, List, [], ◌∷◌, ◌++◌, Text, ==_refl,
  nat_eq, text_eq, arith,
}
use blockchain_sybil_attack.Base.Int.{ℤ, pos, int_eq, succ_ℤ}
use blockchain_sybil_attack.Messages.{RumorMessage, PeerStatus, StatusPacket}
use blockchain_sybil_attack.Gossip.{find_from, find_peer_status, update_vector_clock}
use blockchain_sybil_attack.Gossip.Clock.{
  update_vector_clock-known, update_vector_clock-new, first_status,
}
use blockchain_sybil_attack.Gossip.Compare.{status_of, is_some-find_from}
use blockchain_sybil_attack.Gossip.Gaps.{next_of, next_of-advance_at}

-- A clock waits for a rumor: it is the next one of its origin, or the first of an origin that is new.
unfoldable pub Awaits : List PeerStatus → Text → ℤ → Type 0
Awaits want o n = (next_of want o ≡ some n) ⊎ ((status_of want o ≡ none) × (n ≡ pos 1))

next_of-last :
    (want : List PeerStatus) (st : PeerStatus)
    → status_of want st.identifier ≡ none
    → next_of (want ++ st ∷ []) st.identifier ≡ some st.next_id
unfolding status_of
next_of-last [] st new = ground (arith, ==_refl st.identifier)
next_of-last (x ∷ want) st new = let later = next_of-last want st in ground arith

pub next_of-awaited :
    (clock : StatusPacket) (rumor : RumorMessage)
    → Awaits clock.want rumor.origin rumor.id
    → next_of (update_vector_clock clock rumor).want rumor.origin ≡ some (succ_ℤ rumor.id)
unfolding Awaits first_status
next_of-awaited clock rumor (inl waits) =
    elim (Option-cases (find_from 0 clock.want rumor.origin)) [
      | inl missing ↦ absurd (ground (arith, is_some-find_from clock.want rumor.origin))
      | inr (i, here) ↦
          let found : find_peer_status clock.want rumor.origin ≡ some i =
            unfold find_peer_status in here in
          rw (update_vector_clock-known clock rumor found) (
            next_of-advance_at clock.want rumor.origin rumor.origin i rumor.id rumor.id here waits
            ∙ rw (==_refl rumor.origin, ==_refl rumor.id) refl)
    ]
next_of-awaited clock rumor (inr (new, first)) =
    let missing : find_peer_status clock.want rumor.origin ≡ none =
      unfold find_peer_status in ground (arith, is_some-find_from clock.want rumor.origin) in
    let second : (first_status rumor).next_id ≡ succ_ℤ rumor.id = rw first refl in
    rw (update_vector_clock-new clock rumor missing)
      (next_of-last clock.want (first_status rumor) new ∙ ap some second)
