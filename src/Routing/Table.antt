-- ===== src/Routing/Table.antt =====
-- Routes and hop limits of code/helper.go.
use blockchain_sybil_attack.Base.{
  ℕ, ◌-◌, ◌^◌, ◌<◌, ◌≡◌, ◌≢◌, ==_refl, Option-cases, Bool, true, false, not, ◌&&◌, ◌||◌, none, some,
  Text, get, get-put, ◌==◌, ==_iff, nat_eq, text_eq, if◌then◌else◌, ok, arith, inl, inr, Bool-cases,
}
use blockchain_sybil_attack.Base.Int.{ℤ, pos, negsuc, ltb_ℤ, int_eq}
use blockchain_sybil_attack.Messages.{Address, RumorMessage, PrivateMessage, empty_packet}
use blockchain_sybil_attack.Node.{Net, State, send}
use blockchain_sybil_attack.Routing.{is_direct_route, update_routing_table, overwrite_last}
use blockchain_sybil_attack.Routing.Private.{one_hop_less, forward_private_message}

-- A rumor changes no route but that to its origin, which becomes the sender when the update reports so.
pub update_routing_table_routes :
    (s : State) (msg : RumorMessage) (from : Address) (j : Text)
    → get (update_routing_table s msg from).0.next_hops j ≡ (
        if (update_routing_table s msg from).1 && msg.origin == j
        then some from
        else get s.next_hops j)
unfolding update_routing_table
update_routing_table_routes s msg from j = ground (arith, get-put s.next_hops msg.origin j from)

next_hop_limit : (h : ℕ) → h < 2 ^ 32 → one_hop_less h ≡ (if h == 0 then 4294967295 else h - 1)
next_hop_limit h small = ground arith

-- A private message on its way: with a route to its destination it is sent on to the next hop with
-- its limit lowered by one, exactly when the limit is not 1; a limit of 0 becomes 2 ^ 32 - 1.
pub forward_private_message_hops :
    (s : State) (pm : PrivateMessage) (next_hop : Address)
    → pm.hop_limit < 2 ^ 32
    → get s.next_hops pm.dest ≡ some next_hop
    → forward_private_message s pm ≡ (
        if pm.hop_limit == 1 then (s, false) else (
          send s
              (record empty_packet {
                message = some (record pm {
                  hop_limit = if pm.hop_limit == 0 then 4294967295 else pm.hop_limit - 1;
                });
              })
              next_hop,
          true,
        ))
unfolding forward_private_message
forward_private_message_hops s pm next_hop small route =
    let limit = next_hop_limit pm.hop_limit small in ground arith

pub ltb_ℤ_irrefl : (a : ℤ) → ltb_ℤ a a ≡ false
ltb_ℤ_irrefl (pos a) = ground arith
ltb_ℤ_irrefl (negsuc a) = ground arith

newer : (n m : ℤ) (d : Bool) → (ltb_ℤ n m || (m == n && d)) ≡ true → ltb_ℤ m n ≡ false
newer (pos n) (pos m) d e = ground arith
newer (pos n) (negsuc m) d e = ground arith
newer (negsuc n) (pos m) d e = ground arith
newer (negsuc n) (negsuc m) d e = ground arith

pub seqn_after :
    (s : State) (msg : RumorMessage) (from : Address) (o : Text)
    → get (update_routing_table s msg from).0.last_seqn_seen o ≡ (
        if (update_routing_table s msg from).1 && msg.origin == o
        then some msg.id
        else get s.last_seqn_seen o)
unfolding update_routing_table
seqn_after s msg from o = ground (arith, get-put s.last_seqn_seen msg.origin o msg.id)

seqn_newer :
    (s : State) (msg : RumorMessage) (from : Address) (n : ℤ)
    → (update_routing_table s msg from).1 ≡ true
    → get s.last_seqn_seen msg.origin ≡ some n
    → ltb_ℤ msg.id n ≡ false
unfolding update_routing_table
seqn_newer s msg from n updated known = newer n msg.id (is_direct_route msg) (ground arith)

at_least : (n m : ℤ) (d : Bool) → (ltb_ℤ n m || (m == n && d)) ≡ false → ltb_ℤ n m ≡ false
at_least n m d e = ground arith

-- After a rumor of another node the number that is kept for it is no lower than that of the rumor.
pub seqn_taken :
    (s : State) (msg : RumorMessage) (from : Address)
    → msg.origin ≢ s.me.identifier
    → (n : ℤ) × (get (update_routing_table s msg from).0.last_seqn_seen msg.origin ≡ some n)
      × (ltb_ℤ n msg.id ≡ false)
seqn_taken s msg from foreign =
    let after = seqn_after s msg from msg.origin in
    let self = ==_refl msg.origin in
    elim (Bool-cases (update_routing_table s msg from).1) [
      | inl updated ↦ (msg.id, ground arith, ltb_ℤ_irrefl msg.id)
      | inr not_updated ↦ elim (Option-cases (get s.last_seqn_seen msg.origin)) [
        | inl new ↦
            absurd
              (unfold update_routing_table in ground (arith, ==_iff msg.origin s.me.identifier))
        | inr (n, known) ↦ (
          n,
          ground arith,
          unfold update_routing_table in ground (arith, ==_iff msg.origin s.me.identifier),
        )
      ]
    ]

-- The sequence number that is kept for an origin never goes down.
pub update_routing_table_mono :
    (s : State) (msg : RumorMessage) (from : Address) (o : Text) (n : ℤ)
    → get s.last_seqn_seen o ≡ some n
    → (m : ℤ) × (get (update_routing_table s msg from).0.last_seqn_seen o ≡ some m)
      × (ltb_ℤ m n ≡ false)
update_routing_table_mono s msg from o n known =
    let after = seqn_after s msg from o in
    elim (Bool-cases ((update_routing_table s msg from).1 && msg.origin == o)) [
      | inr not_updated ↦ (n, ground arith, ltb_ℤ_irrefl n)
      | inl updated ↦ (
        msg.id,
        ground arith,
        seqn_newer s msg from n (ground arith) (grind (arith, ==_iff msg.origin o)),
      )
    ]

overwritten :
    (net : Net) (msg : RumorMessage) (from : Address) (m : RumorMessage)
    → overwrite_last net msg from ≡ ok m
    → (m.origin ≡ msg.origin) × (m.id ≡ msg.id) × (is_direct_route m ≡ false)
unfolding overwrite_last is_direct_route
overwritten net msg from m e = grind arith

-- Every rumor that a peer sent passes `overwriteLast` before the routing table sees it, so the table
-- takes it only for a new origin or a higher identifier, never for a direct route.
pub relayed_rumor_never_direct :
    (net : Net) (s : State) (msg : RumorMessage) (from : Address) (m : RumorMessage)
    → overwrite_last net msg from ≡ ok m
    → (update_routing_table s m from).1 ≡ (
        not (msg.origin == s.me.identifier)
        && elim (get s.last_seqn_seen msg.origin) [ none ↦ true | some n ↦ ltb_ℤ n msg.id ])
unfolding update_routing_table
relayed_rumor_never_direct net s msg from m e =
    let kept = overwritten net msg from m e in grind arith
