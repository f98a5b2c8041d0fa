-- ===== src/Gossip/Compare.antt =====
-- What `compareVectorClockWithOther` of code/helper.go answers.
use blockchain_sybil_attack.Base.{
  ℕ, zero, suc, ◌≤◌, ◌≡◌, refl, Bool, true, false, Option, none, some, List, [], ◌∷◌, Text, is_some,
  All, ◌==◌, nat_eq, text_eq, get_elem?, if◌then◌else◌, arith, inl, inr, Option-cases,
}
use blockchain_sybil_attack.Base.Int.{ℤ, pos, negsuc, ltb_ℤ}
use blockchain_sybil_attack.Messages.{RumorMessage, PeerStatus}
use blockchain_sybil_attack.Node.{key_eq, State}
use blockchain_sybil_attack.Gossip.{find_from, find_peer_status, get_msg, compare_mine}
use blockchain_sybil_attack.Gossip.Clock.{is_seen, find_from-suc}

-- The status of an origin, looked up without an index.
unfoldable pub status_of : List PeerStatus → Text → Option PeerStatus
status_of [] o = none
status_of (st ∷ rest) o = if st.identifier == o then some st else status_of rest o

-- The index that `findPeerStatus` returns is that of the status.
find_peer_status-status_of :
    (want : List PeerStatus) (o : Text)
    → status_of want o ≡ elim (find_from 0 want o) [ none ↦ none | some i ↦ get_elem? want i ]
unfolding status_of find_from
find_peer_status-status_of [] o = refl
find_peer_status-status_of (st ∷ rest) o =
    ground (arith, find_from-suc 0 rest o, find_peer_status-status_of rest o)

pub is_some-find_from :
    (want : List PeerStatus) (o : Text) → is_some (find_from 0 want o) ≡ is_some (status_of want o)
unfolding status_of find_from
is_some-find_from [] o = refl
is_some-find_from (st ∷ rest) o = ground (arith, find_from-suc 0 rest o, is_some-find_from rest o)

-- One round of the first loop, by the status of the other.
module _ (s : State) (st : PeerStatus) (rest other : List PeerStatus) (b : Bool) where
  unfoldable pub round : Option PeerStatus → Bool × Option RumorMessage
  round none = (b, some (get_msg s st.identifier (pos 1)))
  round (some theirs) =
      if ltb_ℤ st.next_id theirs.next_id
      then compare_mine s rest other true
      else if ltb_ℤ theirs.next_id st.next_id
      then (b, some (get_msg s st.identifier theirs.next_id))
      else compare_mine s rest other b

find_from-in :
    (want : List PeerStatus) (o : Text) (i : ℕ)
    → find_from 0 want o ≡ some i
    → is_some (get_elem? want i) ≡ true
unfolding find_from
find_from-in [] o i f = cc
find_from-in (st ∷ rest) o zero f = refl
find_from-in (st ∷ rest) o (suc i) f =
    find_from-in rest o i (ground (arith, find_from-suc 0 rest o))

pub compare_mine-round :
    (s : State) (st : PeerStatus) (rest other : List PeerStatus) (b : Bool)
    → compare_mine s (st ∷ rest) other b ≡ round s st rest other b (status_of other st.identifier)
unfolding compare_mine round find_peer_status
compare_mine-round s st rest other b = elim (Option-cases (find_from 0 other st.identifier)) [
  | inl nothing ↦ ground (arith, find_peer_status-status_of other st.identifier)
  | inr (i, here) ↦ ground (
    arith,
    find_peer_status-status_of other st.identifier,
    find_from-in other st.identifier i here,
  )
]

abbrev pub Positive : ℤ → Type 0
Positive (pos n) = 1 ≤ n
Positive (negsuc n) = ⊥

abbrev pub AllPositive : List PeerStatus → Type 0
AllPositive = All (λ st. Positive st.next_id)

-- The identifier that a vector clock waits for next, of an origin.
abbrev pub awaited : List PeerStatus → Text → ℤ
awaited other o = elim (status_of other o) [ none ↦ pos 1 | some t ↦ t.next_id ]

-- The rumor that is found for the other: the one that the other waits for next of its origin, which
-- is stored; or, for an origin that neither has a rumor of, the zero value of a rumor.
pub data Lacks (s : State) (other : List PeerStatus) (m : RumorMessage) : Type 0 where
  stored :
      (o : Text) (k : ℕ)
      → 1 ≤ k
      → awaited other o ≡ pos k
      → m ≡ get_msg s o (pos k)
      → is_seen s.msgs_seen o (pos k) ≡ true
      → Lacks s other m
  empty :
      (o : Text)
      → status_of other o ≡ none
      → is_seen s.msgs_seen o (pos 1) ≡ false
      → m.text ≡ []
      → Lacks s other m
