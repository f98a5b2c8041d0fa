-- ===== src/Routing/Printing.antt =====
-- printPeers of code/helper.go returns as soon as there is a peer.
use blockchain_sybil_attack.Base.{ℕ, ◌≤◌, ◌≡◌, refl, List, [], ◌∷◌, ◌++◌, Text, ok, length, arith}
use blockchain_sybil_attack.Messages.{Gossiper}
use blockchain_sybil_attack.Node.{State}
use blockchain_sybil_attack.Routing.{peers_text, without_last, print_peers}

without_last-cons : (c : ℕ) (t : Text) → (u : Text) × (without_last (c ∷ t) ≡ ok u)
unfolding without_last
without_last-cons c [] = ([], refl)
without_last-cons c (d ∷ t) = let (u, e) = without_last-cons d t in (c ∷ u, rw e refl)

without_last-append : (a t : Text) (c : ℕ) → (u : Text) × (without_last (a ++ c ∷ t) ≡ ok u)
without_last-append [] t c = without_last-cons c t
without_last-append (d ∷ a) t c = without_last-cons d (a ++ c ∷ t)

pub print_peers-cons :
    (s : State) (g : Gossiper) (gs : List Gossiper)
    → s.gossipers ≡ g ∷ gs
    → (u : Text) × (print_peers s ≡ ok u)
unfolding print_peers peers_text
print_peers-cons s g gs e =
    let (u, done) = without_last-append g.address (peers_text gs) 44 in (u, rw e done)

some_cons :
    (gs : List Gossiper) → 1 ≤ length gs → (g : Gossiper) × (hs : List Gossiper) × (gs ≡ g ∷ hs)
some_cons [] le = absurd (omega (arith, le))
some_cons (g ∷ gs) le = (g, gs, refl)

pub print_peers-total : (s : State) → 1 ≤ length s.gossipers → (u : Text) × (print_peers s ≡ ok u)
print_peers-total s le = let (g, gs, e) = some_cons s.gossipers le in print_peers-cons s g gs e
