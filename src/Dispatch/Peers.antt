-- ===== src/Dispatch/Peers.antt =====
-- Where printPeers of code/helper.go panics: not at a packet of a peer, whose sender is a peer by then,
-- but at a rumor of the client when the gossiper knows no peer.
use blockchain_sybil_attack.Base.{
  ◌≡◌, refl, true, some, List, [], ◌∷◌, ◌++◌, Text, ok, panic, index_out_of_range, arith, inl, inr,
  Bool-cases,
}
use blockchain_sybil_attack.Chain.Platform.{Platform}
use blockchain_sybil_attack.Messages.{Address, Gossiper, RumorMessage, empty_packet}
use blockchain_sybil_attack.Node.{Net, State}
use blockchain_sybil_attack.Routing.{
  peers_text, without_last, print_peers, already_know_peer, add_peer,
}
use blockchain_sybil_attack.Routing.Printing.{print_peers-cons}
use blockchain_sybil_attack.Dispatch.{Surroundings, meet_sender}
use blockchain_sybil_attack.Dispatch.Clients.{Desk, receive_client_packet}

known_has_peers :
    (gs : List Gossiper) (a : Address)
    → already_know_peer gs a ≡ true
    → (g : Gossiper) × (hs : List Gossiper) × (gs ≡ g ∷ hs)
unfolding already_know_peer
known_has_peers [] a e = absurd (ground arith)
known_has_peers (g ∷ gs) a e = (g, gs, refl)

append_has_peers :
    (gs : List Gossiper) (g : Gossiper)
    → (h : Gossiper) × (hs : List Gossiper) × (gs ++ g ∷ [] ≡ h ∷ hs)
append_has_peers [] g = (g, [], refl)
append_has_peers (h ∷ hs) g = (h, hs ++ g ∷ [], refl)

add_peer_has_peers :
    (net : Net) (s : State) (a : Address)
    → (h : Gossiper) × (hs : List Gossiper) × ((add_peer net s a).gossipers ≡ h ∷ hs)
unfolding add_peer
add_peer_has_peers net s a = append_has_peers s.gossipers _

-- Once the sender of a packet is a peer, printPeers returns.
pub met_peers_printed :
    (net : Net) (lib : Platform) (w : Surroundings) (from : Address) (s : State)
    → (u : Text) × (print_peers (meet_sender net lib w from s) ≡ ok u)
met_peers_printed net lib w from s = elim (Bool-cases (already_know_peer s.gossipers from)) [
  | inl known ↦
      let (g, gs, e) = known_has_peers s.gossipers from known in
      let same : meet_sender net lib w from s ≡ s = unfold meet_sender in rw known refl in
      rw same (print_peers-cons s g gs e)
  | inr new ↦
      let same : meet_sender net lib w from s ≡ add_peer net s from =
        unfold meet_sender in rw new refl in
      let (g, gs, e) = add_peer_has_peers net s from in
      rw same (print_peers-cons (add_peer net s from) g gs e)
]

-- A rumor of the client makes a gossiper without peers panic.
pub lonely_rumor_panics :
    (lib : Platform) (desk : Desk) (s : State) (rumor : RumorMessage)
    → s.gossipers ≡ []
    → receive_client_packet lib desk s (record empty_packet { rumor = some rumor })
      ≡ panic index_out_of_range
unfolding receive_client_packet print_peers peers_text without_last
lonely_rumor_panics lib desk s rumor alone = ground arith
