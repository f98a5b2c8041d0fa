-- ===== src/Start/Tests.antt =====
-- The theorems about a start at a node with the genesis flag.
use blockchain_sybil_attack.Base.{ℕ, ◌≡◌, refl, true, false, some, [], ◌∷◌, codes, ok}
use blockchain_sybil_attack.Base.Words.{split_from}
use blockchain_sybil_attack.Chain.Block.{is_valid, expired, enough_zeros, hash, Block}
use blockchain_sybil_attack.Chain.Mining.{
  trial, mine_from, mine_block, genesis_from, genesis_chain, init_genesis,
}
use blockchain_sybil_attack.Puzzles.Steps.{here, Extends}
use blockchain_sybil_attack.Node.{State}
use blockchain_sybil_attack.Start.{Flags, Supplies, start}
use blockchain_sybil_attack.Start.Ready.{genesis_node-Extends}
use blockchain_sybil_attack.Samples.{toy, noon, owner, net, result}

abbrev flags : Flags
flags = record {
  gossip_ip_port = codes "127.0.0.1:5000";
  name = codes "A";
  peers = codes "127.0.0.1:5001";
  noforward = false;
  genesis = true;
}

abbrev supplies : Supplies
supplies = record { key = owner; tries = 1; fuel = 1; now = λ k. noon; clocks = λ k i. 7 }

abbrev begun : State
begun = result (start net toy supplies flags)

started : start net toy supplies flags ≡ ok begun
unfolding start init_genesis genesis_from mine_block mine_from is_valid expired trial enough_zeros
    hash split_from
started = refl

genesis_node-Extends_example :
    (b : Block) × (init_genesis toy 1 owner 1 1 (λ k. noon) (λ k i. 7)
      ≡ some begun.srh.ps.local_chain)
    × (begun.srh.ps.local_chain ≡ genesis_chain 1 b)
    × (b.node_id ≡ 1)
    × ((t : ℕ) × (is_valid toy t b ≡ true))
    × Extends toy (b ∷ []) begun.srh.ps
genesis_node-Extends_example =
    genesis_node-Extends net toy supplies flags begun begun.srh.ps started refl here
