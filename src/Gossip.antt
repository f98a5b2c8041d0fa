-- ===== src/Gossip.antt =====
-- Rumor mongering of code/helper.go: vector clocks and their comparison, and stored rumors.
pub mod Spreading
pub mod Clock
pub mod Handlers
pub mod Compare
pub mod Sync
pub mod Gaps
pub mod Blank
pub mod Origins
pub mod Abstract
pub mod Awaited
pub mod Progress
pub mod Keyed
pub mod Offer
mod Tests
use blockchain_sybil_attack.Base.{
  ℕ, zero, suc, ◌+◌, Bool, true, false, not, Option, none, some, List, [], ◌∷◌, ◌++◌, Text, Map,
  get, put, is_some, ◌==◌, nat_eq, text_eq, get_elem?, if◌then◌else◌,
}
use blockchain_sybil_attack.Base.Int.{ℤ, pos, ltb_ℤ, int_eq, succ_ℤ}
use blockchain_sybil_attack.Messages.{RumorMessage, PeerStatus, StatusPacket}
use blockchain_sybil_attack.Node.{RumorMessageKey, key_eq, StoredRumor, State}

abbrev pub get_key : RumorMessage → RumorMessageKey
get_key r = record { origin = r.origin; id = r.id }

-- The index of the status of `origin`; `none` is -1.
unfoldable pub find_from : ℕ → List PeerStatus → Text → Option ℕ
find_from i [] origin = none
find_from i (status ∷ rest) origin =
    if status.identifier == origin then some i else find_from (i + 1) rest origin

unfoldable pub find_peer_status : List PeerStatus → Text → Option ℕ
find_peer_status want origin = find_from 0 want origin

-- `want[index].NextID = status.NextID + 1`, if the status at the index waits for this rumor.
unfoldable pub advance_at : List PeerStatus → ℕ → ℤ → List PeerStatus
advance_at [] i id = []
advance_at (status ∷ rest) zero id =
    record status {
      next_id = if id == status.next_id then succ_ℤ status.next_id else status.next_id;
    }
    ∷ rest
advance_at (status ∷ rest) (suc i) id = status ∷ advance_at rest i id

unfoldable pub update_vector_clock : StatusPacket → RumorMessage → StatusPacket
update_vector_clock clock rumor = elim (find_peer_status clock.want rumor.origin) [
  | none ↦ record {
    want =
        clock.want
        ++ record {
          identifier = rumor.origin;
          next_id = if rumor.id == pos 1 then pos 2 else pos 1;
        }
          ∷ [];
  }
  | some index ↦ record { want = advance_at clock.want index rumor.id }
]

unfoldable pub msg_already_seen : State → RumorMessage → Bool
msg_already_seen s msg = is_some (get s.msgs_seen (get_key msg))

-- `now` is the clock in milliseconds.
unfoldable pub add_msg_seen : ℤ → State → RumorMessage → State
add_msg_seen now s msg = if msg_already_seen s msg then s else record s {
  msgs_seen =
      put s.msgs_seen (get_key msg)
        (record { origin = msg.origin; id = msg.id; text = msg.text; time_added = now });
}

-- `state.msgsSeen[key]` is the zero value for a key that is not there.
unfoldable pub get_msg : State → Text → ℤ → RumorMessage
get_msg s origin id = elim (get s.msgs_seen (record { origin = origin; id = id })) [
  | none ↦ record { origin = []; id = pos 0; text = []; last_ip = none; last_port = none }
  | some r ↦ record {
    origin = r.origin;
    id = r.id;
    text = r.text;
    last_ip = none;
    last_port = none;
  }
]

unfoldable pub stored_since : ℤ → Map RumorMessageKey StoredRumor → List StoredRumor
stored_since time [] = []
stored_since time ((k, msg) ∷ rest) =
    let msgs = stored_since time rest in
    if not (ltb_ℤ msg.time_added time) then msg ∷ msgs else msgs

unfoldable pub get_msgs_from : State → ℤ → List StoredRumor
get_msgs_from s time = stored_since time s.msgs_seen

-- The first loop of `compareVectorClockWithOther` over this node's statuses: whether the other has
-- more of some origin, and the rumor that it lacks.
unfoldable pub compare_mine :
    State → List PeerStatus → List PeerStatus → Bool → Bool × Option RumorMessage
compare_mine state [] other some_not_seen = (some_not_seen, none)
compare_mine state (s ∷ rest) other some_not_seen =
    let next = λ (b : Bool). compare_mine state rest other b in
    elim (find_peer_status other s.identifier) [
      | none ↦ (some_not_seen, some (get_msg state s.identifier (pos 1)))
      | some index ↦ elim (get_elem? other index) [
        | none ↦ next some_not_seen
        | some theirs ↦
            if ltb_ℤ s.next_id theirs.next_id
            then next true
            else if ltb_ℤ theirs.next_id s.next_id
            then (some_not_seen, some (get_msg state s.identifier theirs.next_id))
            else next some_not_seen
      ]
    ]

-- The second loop: whether the other knows an origin that this node does not.
unfoldable pub compare_theirs : List PeerStatus → List PeerStatus → Bool → Bool
compare_theirs mine [] some_not_seen = some_not_seen
compare_theirs mine (s ∷ rest) some_not_seen =
    compare_theirs mine rest
      (if is_some (find_peer_status mine s.identifier) then some_not_seen else true)

unfoldable pub compare_vector_clock_with_other : State → StatusPacket → Bool × Option RumorMessage
compare_vector_clock_with_other s vc =
    let (some_not_seen, not_seen_by_other) = compare_mine s s.vector_clock.want vc.want false in
    (compare_theirs s.vector_clock.want vc.want some_not_seen, not_seen_by_other)
