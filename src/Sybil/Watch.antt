-- ===== src/Sybil/Watch.antt =====
-- How code/node_communication.go marks a neighbour inactive: by its monitor and by the dials of
-- `checkNeighbors`.
use blockchain_sybil_attack.Base.{
  ℕ, suc, ◌+◌, ◌<◌, ◌≡◌, ◌∙◌, refl, Bool, true, false, none, some, List, [], ◌∷◌, Text, get,
  get-put, ◌==◌, ==_refl, nat_eq, text_eq, if◌then◌else◌, ok, arith,
}
use blockchain_sybil_attack.Chain.Platform.{Platform}
use blockchain_sybil_attack.Messages.{Address, GossipPacket}
use blockchain_sybil_attack.Neighbors.{
  Monitor, SybilResistanceHandler, set_active, set_counter, is_active, take_message, deliver,
  without_monitor, counted, count_up, loop_head,
}
use blockchain_sybil_attack.Sybil.{
  blocked, create_inactive_packet, monitor_timeout, check_neighbor, from_member,
}
use blockchain_sybil_attack.Sybil.Gate.{is_active-set_self}

-- The monitors of an address.
unfoldable pub watchers : Text → List Monitor → ℕ
watchers k [] = 0
watchers k (m ∷ ms) = if m.key == k then suc (watchers k ms) else watchers k ms

watchers-without_monitor :
    (k : Text) (ms : List Monitor) → watchers k ms ≡ 1 → watchers k (without_monitor k ms) ≡ 0
unfolding watchers without_monitor
watchers-without_monitor k [] h = absurd (omega arith)
watchers-without_monitor k (m ∷ ms) h = ground (arith, watchers-without_monitor k ms)

take_message-none : (k : Text) (ms : List Monitor) → watchers k ms ≡ 0 → take_message k ms ≡ none
unfolding watchers take_message
take_message-none k [] h = refl
take_message-none k (m ∷ ms) h = ground (arith, take_message-none k ms)

watchers-count_up : (k : Text) (ms : List Monitor) → watchers k (count_up k ms) ≡ watchers k ms
unfolding watchers count_up
watchers-count_up k [] = refl
watchers-count_up k (m ∷ ms) = ground (arith, watchers-count_up k ms)

counted-count_up :
    (k : Text) (ms : List Monitor) {c : ℕ}
    → counted k ms ≡ some c
    → counted k (count_up k ms) ≡ some (c + 1)
unfolding counted count_up
counted-count_up k [] h = cc
counted-count_up k (m ∷ ms) {c} h = ground (arith, counted-count_up k ms {c = c})

module _ (lib : Platform) (srh : SybilResistanceHandler) (k : Text) where
  -- One wait in vain, of two.
  waited : SybilResistanceHandler
  waited = record srh { cn = record srh.cn { monitors = count_up k srh.cn.monitors } }

  monitor_timeout-waited :
      counted k srh.cn.monitors ≡ some 0
      → is_active srh k ≡ true
      → srh.cn.mu1_held ≡ false
      → monitor_timeout lib srh k ≡ waited
  unfolding monitor_timeout loop_head waited is_active
  monitor_timeout-waited c a free = ground arith

  -- The last wait in vain.
  gone : SybilResistanceHandler
  gone =
      set_active
        (record srh { cn = record srh.cn { monitors = without_monitor k srh.cn.monitors } }) k false

  monitor_timeout-gone :
      counted k srh.cn.monitors ≡ some 1
      → srh.cn.mu1_held ≡ false
      → monitor_timeout lib srh k ≡ create_inactive_packet lib gone k
  unfolding monitor_timeout gone
  monitor_timeout-gone c free = ground arith

  same_cn-create_inactive_packet : (create_inactive_packet lib srh k).cn ≡ srh.cn
  unfolding create_inactive_packet
  same_cn-create_inactive_packet = refl

is_active-create_inactive_packet :
    (lib : Platform) (srh : SybilResistanceHandler) (ip k : Text)
    → is_active (create_inactive_packet lib srh ip) k ≡ is_active srh k
unfolding is_active create_inactive_packet
is_active-create_inactive_packet lib srh ip k = refl

is_active-gone :
    (lib : Platform) (srh : SybilResistanceHandler) (k : Text)
    → is_active (create_inactive_packet lib (gone lib srh k) k) k ≡ false
unfolding gone
is_active-gone lib srh k = rw is_active-create_inactive_packet (is_active-set_self _ k false)

unwatched_blocks :
    (lib : Platform) (srh : SybilResistanceHandler) (gp : GossipPacket) (k : Text)
    → is_active srh k ≡ true
    → watchers k srh.cn.monitors ≡ 0
    → from_member lib srh gp k ≡ ok (srh, blocked)
unfolding from_member deliver
unwatched_blocks lib srh gp k active nobody =
    ground (arith, take_message-none k srh.cn.monitors nobody)

-- A dial that succeeds marks a neighbour active again that has not yet failed twice, and the next
-- packet of a member from an address that nobody watches blocks the listening goroutine.
revived_blocks :
    (lib : Platform) (alive : Address → Bool) (srh : SybilResistanceHandler) (gp : GossipPacket)
    (k : Text) {v : Bool} {n : ℕ}
    → get srh.cn.active_neighbors k ≡ some v
    → get srh.cn.neighbors k ≡ some n
    → n < 2
    → alive k ≡ true
    → watchers k srh.cn.monitors ≡ 0
    → (s : SybilResistanceHandler) × (from_member lib (check_neighbor lib alive srh k) gp k
        ≡ ok (s, blocked))
revived_blocks lib alive srh gp k known counter few up nobody =
    let revived = set_active (set_counter srh k 0) k true in
    let same : check_neighbor lib alive srh k ≡ revived = unfold check_neighbor in ground arith in
    (
      revived,
      rw same (
          unwatched_blocks lib revived gp k (is_active-set_self _ k true)
            (unfold set_counter set_active in nobody)),
    )

module _ (lib : Platform) (srh : SybilResistanceHandler) (k : Text)
    (sole : watchers k srh.cn.monitors ≡ 1) (heard : counted k srh.cn.monitors ≡ some 0)
    (active : is_active srh k ≡ true) (free : srh.cn.mu1_held ≡ false) where
  after_two :
      monitor_timeout lib (monitor_timeout lib srh k) k
      ≡ create_inactive_packet lib (gone lib (waited lib srh k) k) k
  after_two = rw (monitor_timeout-waited lib srh k heard active free) (
      monitor_timeout-gone lib (waited lib srh k) k
        (unfold waited in counted-count_up k srh.cn.monitors heard) (unfold waited in free))

  -- While `mu1` is free, an active address with a single monitor that has just heard from it is
  -- marked inactive by two waits in vain on end, and its monitor has then returned.
  pub two_timeouts :
      (is_active (monitor_timeout lib (monitor_timeout lib srh k) k) k ≡ false)
      × (watchers k (monitor_timeout lib (monitor_timeout lib srh k) k).cn.monitors ≡ 0)
  two_timeouts = rw after_two (
    is_active-gone lib (waited lib srh k) k,
    unfold create_inactive_packet waited gone set_active in
        watchers-without_monitor k (count_up k srh.cn.monitors)
          (watchers-count_up k srh.cn.monitors ∙ sole),
  )

  -- A neighbour that its single monitor has marked inactive after two waits in vain, while `mu1` was
  -- free, is active again after a dial that reaches it, while its monitor is gone: the next packet of
  -- a member from it blocks the node for ever.
  pub silent_neighbour_blocks :
      (alive : Address → Bool) (gp : GossipPacket) {n : ℕ}
      → get srh.cn.neighbors k ≡ some n
      → n < 2
      → alive k ≡ true
      → (s : SybilResistanceHandler) × (from_member lib
            (check_neighbor lib alive (monitor_timeout lib (monitor_timeout lib srh k) k) k)
            gp
            k
          ≡ ok (s, blocked))
  silent_neighbour_blocks alive gp counter few up =
      revived_blocks lib alive (monitor_timeout lib (monitor_timeout lib srh k) k) gp k {v = false}
        (rw after_two (unfold create_inactive_packet gone set_active in rw (get-put, ==_refl)))
        (rw after_two (unfold create_inactive_packet gone set_active waited in counter)) few up
        two_timeouts.1

unlock_missed :
    (lib : Platform) (srh : SybilResistanceHandler) (k : Text)
    → counted k srh.cn.monitors ≡ some 0
    → is_active srh k ≡ false
    → srh.cn.mu1_held ≡ false
    → (monitor_timeout lib srh k).cn.mu1_held ≡ true
unfolding monitor_timeout loop_head is_active
unlock_missed lib srh k waits marked free = ground arith

held_blocks :
    (lib : Platform) (srh : SybilResistanceHandler) (gp : GossipPacket) (from : Address)
    → srh.cn.mu1_held ≡ true
    → from_member lib srh gp from ≡ ok (srh, blocked)
unfolding from_member
held_blocks lib srh gp from held = ground arith

held_stays :
    (lib : Platform) (srh : SybilResistanceHandler) (j : Text)
    → srh.cn.mu1_held ≡ true
    → (monitor_timeout lib srh j).cn.mu1_held ≡ true
unfolding monitor_timeout
held_stays lib srh j held = ground arith

-- Once a neighbour has been marked inactive by something else than its monitor, the first wait in
-- vain of its monitor ends with `mu1` held for ever: a packet of a member, from any address, then
-- blocks the node, and no timer of a monitor frees it.
pub marked_neighbour_deadlocks :
    (lib : Platform) (srh : SybilResistanceHandler) (k j : Text) (gp : GossipPacket)
    (from : Address)
    → counted k srh.cn.monitors ≡ some 0
    → is_active srh k ≡ false
    → srh.cn.mu1_held ≡ false
    → (from_member lib (monitor_timeout lib srh k) gp from
        ≡ ok (monitor_timeout lib srh k, blocked))
      × ((monitor_timeout lib (monitor_timeout lib srh k) j).cn.mu1_held ≡ true)
marked_neighbour_deadlocks lib srh k j gp from waits marked free =
    let held = unlock_missed lib srh k waits marked free in
    (
      held_blocks lib (monitor_timeout lib srh k) gp from held,
      held_stays lib (monitor_timeout lib srh k) j held,
    )
