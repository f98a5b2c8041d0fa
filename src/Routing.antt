-- ===== src/Routing.antt =====
-- Routes and peers of code/helper.go and code/gossiper.go.
pub mod Private
pub mod Newest
pub mod Table
pub mod Printing
mod Tests
use blockchain_sybil_attack.Base.{
  ℕ, zero, suc, ◌+◌, ◌-◌, ◌/◌, ◌%◌, Bool, true, false, not, ◌&&◌, ◌||◌, Option, none, some, List,
  [], ◌∷◌, ◌++◌, Text, get, put, ◌==◌, nat_eq, text_eq, codes, length, ltb, get_elem?,
  if◌then◌else◌, Outcome, ok, panic, index_out_of_range, ◌>>=◌,
}
use blockchain_sybil_attack.Base.Words.{split}
use blockchain_sybil_attack.Base.Int.{ℤ, pos, negsuc, ltb_ℤ, int_eq}
use blockchain_sybil_attack.Messages.{Address, RumorMessage, empty_packet, Gossiper}
use blockchain_sybil_attack.Node.{Net, State, send}

abbrev pub is_none {ℓ} : {A : Type ℓ} → Option A → Bool
is_none none = true
is_none (some a) = false

unfoldable pub is_direct_route : RumorMessage → Bool
is_direct_route route = route.text == [] && is_none route.last_ip && is_none route.last_port

unfoldable pub update_routing_table : State → RumorMessage → Address → State × Bool
update_routing_table s msg from =
    let stored = record s {
      last_seqn_seen = put s.last_seqn_seen msg.origin msg.id;
      next_hops = put s.next_hops msg.origin from;
    } in
    if msg.origin == s.me.identifier then (s, false) else elim (get s.last_seqn_seen msg.origin) [
      | none ↦ (stored, true)
      | some last_seqn ↦
          if ltb_ℤ last_seqn msg.id || (msg.id == last_seqn && is_direct_route msg)
          then (stored, true)
          else (s, false)
    ]

-- `alreadyKnowPeer` and `alreadyKnowPeerStr`.
unfoldable pub already_know_peer : List Gossiper → Address → Bool
already_know_peer [] addr = false
already_know_peer (peer ∷ peers) addr =
    if peer.address == addr then true else already_know_peer peers addr

-- The decimal digits of `n`, before those in `acc`, with fuel; `strconv.Itoa` gives fuel enough.
unfoldable pub decimal_from : ℕ → ℕ → Text → Text
decimal_from zero n acc = acc
decimal_from (suc fuel) n acc =
    let more = decimal_from fuel (n / 10) ((48 + n % 10) ∷ acc) in
    if ltb n 10 then (48 + n) ∷ acc else more

unfoldable pub itoa : ℕ → Text
itoa n = decimal_from (n + 1) n []

-- `strconv.Itoa` of an `int`.
unfoldable pub itoa_int : ℤ → Text
unfolding itoa
itoa_int (pos n) = itoa n
itoa_int (negsuc n) = codes "-" ++ itoa (n + 1)

-- The text of the loop of `printPeers`.
unfoldable pub peers_text : List Gossiper → Text
peers_text [] = []
peers_text (p ∷ gossipers) = p.address ++ 44 ∷ peers_text gossipers

-- `s[0:len(s)-1]`.
unfoldable pub without_last : Text → Outcome Text
without_last [] = panic index_out_of_range
without_last (c ∷ []) = ok []
without_last (c ∷ d ∷ t) = without_last (d ∷ t) >>= (λ more. ok (c ∷ more))

-- `printPeers`, whose text is not printed.
unfoldable pub print_peers : State → Outcome Text
print_peers s = without_last (peers_text s.gossipers)

-- `newGossiper(addr.String(),"P"+strconv.Itoa(len(state.gossipers)))`.
unfoldable pub add_peer : Net → State → Address → State
unfolding itoa
add_peer net s addr = record s {
  gossipers =
      s.gossipers
      ++ record { address = net.resolve addr; identifier = codes "P" ++ itoa (length s.gossipers) }
        ∷ [];
}

unfoldable pub add_peer_from_string : Net → State → Text → State
add_peer_from_string net s addr = add_peer net s (net.resolve addr)

unfoldable pub overwrite_last : Net → RumorMessage → Address → Outcome RumorMessage
overwrite_last net msg from =
    let addr_str = split 58 from in
    elim (get_elem? addr_str 0) [
      | none ↦ panic index_out_of_range
      | some ip ↦ elim (get_elem? addr_str 1) [
        | none ↦ panic index_out_of_range
        | some port ↦
            ok (record msg {
              last_ip = some (net.ip_text ip);
              last_port = some (net.port_text port);
            })
      ]
    ]

unfoldable pub add_peer_from_last : Net → State → RumorMessage → State
add_peer_from_last net s msg = elim msg.last_ip [
  | none ↦ s
  | some ip ↦ elim msg.last_port [
    | none ↦ s
    | some port ↦
        let a = ip ++ codes ":" ++ port in
        if not (already_know_peer s.gossipers a) && not (a == s.me.address)
        then add_peer net s (net.resolve a)
        else s
  ]
]

unfoldable pub send_routing_to : State → RumorMessage → List Gossiper → State
unfolding send
send_routing_to s rumor [] = s
send_routing_to s rumor (peer ∷ peers) =
    send_routing_to (send s (record empty_packet { rumor = some rumor }) peer.address) rumor peers

unfoldable pub send_routing_message : State → State
send_routing_message s =
    send_routing_to s
      (record {
        origin = s.me.identifier;
        id = negsuc 0;
        text = [];
        last_ip = none;
        last_port = none;
      })
      s.gossipers

unfoldable pub change_own_name : State → Text → State
change_own_name s new_name = record s { me = record s.me { identifier = new_name } }
