-- ===== src/Routing/Tests.antt =====
-- The theorem about routes at a gossiper with one peer.
use blockchain_sybil_attack.Base.{
  List, ◌∷◌, false, arith, ◌≡◌, some, [], codes, get, text_eq, nat_eq,
}
use blockchain_sybil_attack.Base.Int.{ℤ, pos, ltb_ℤ, int_eq}
use blockchain_sybil_attack.Messages.{Address, RumorMessage}
use blockchain_sybil_attack.Routing.Newest.{update_all, first, Learnt, newest_route}
use blockchain_sybil_attack.Samples.{gossiper, next_rumor, home}

-- A newer rumor, and an older one that comes after it.
abbrev two_rumors : List (RumorMessage × Address)
two_rumors = (next_rumor, home) ∷ (record next_rumor { id = pos 1 }, codes "10.0.0.9:1") ∷ []

newest_route_example :
    Learnt gossiper (update_all gossiper two_rumors) two_rumors (codes "B")
    × ((m : ℤ) × (get (update_all gossiper two_rumors).last_seqn_seen (codes "B") ≡ some m)
        × (ltb_ℤ m (pos 2) ≡ false))
newest_route_example =
    newest_route gossiper two_rumors next_rumor home first (λ same. ground (arith, same))
