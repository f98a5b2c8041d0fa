-- ===== src/Chain/Tests.antt =====
-- The theorems of code/blockchain.go at concrete chains.
use blockchain_sybil_attack.Base.{
  ◌⊎◌, ℕ, ◌+◌, ◌*◌, ◌≤◌, ◌<◌, ◌≡◌, ◌↔◌, refl, true, false, Option, some, [], ◌∷◌, arith,
  little_endian, sym, List, length, select, nat_eq, ==_iff, get, put,
}
use blockchain_sybil_attack.Chain.Block.{
  Block, expiration, is_valid, hash, expired, enough_zeros, all_zero, all_zero_digits,
  binary_digits, get_bytes, pub_key_to_bytes, rsa_pub_key_to_bc_pub_key,
}
use blockchain_sybil_attack.Chain.Block.Work.{leading24, is_valid_iff}
use blockchain_sybil_attack.Chain.Ledger.{
  get_last_hash, BlockChain, block_of, contains_valid_node_id, next_node_id, size,
}
use blockchain_sybil_attack.Chain.Ledger.History.{IsLedger, append, add_block-IsLedger}
use blockchain_sybil_attack.Chain.Ledger.Shape.{member}
use blockchain_sybil_attack.Chain.Ledger.Agreement.{Collides, same_hash_same_chain}
use blockchain_sybil_attack.Chain.Ledger.Identities.{valid_identities_bounded}
use blockchain_sybil_attack.Chain.Ledger.NodeIds.{next_node_id_least}
use blockchain_sybil_attack.Chain.Mining.{
  Job, genesis_chain, mine_block, mine_from, init_genesis, genesis_job, trial,
}
use blockchain_sybil_attack.Chain.Mining.Search.{Mined, mine_block-Mined}
use blockchain_sybil_attack.Chain.Mining.Genesis.{IsGenesis, init_genesis-IsGenesis}
use blockchain_sybil_attack.Samples.{
  two_block_chain-IsLedger, second_block, toy, noon, owner, first_block, first_block_valid,
  one_block_chain, one_block_chain-IsLedger, two_block_chain, second_block_added,
}

is_valid_iff_example :
    (is_valid toy 7 first_block ≡ true)
    ↔ ((7 ≤ 5 + expiration) × (leading24 (hash toy first_block) < 2))
is_valid_iff_example = is_valid_iff toy 7 first_block

add_block-IsLedger_example :
    IsLedger toy (append toy 7 (first_block ∷ []) second_block) two_block_chain
add_block-IsLedger_example =
    add_block-IsLedger toy 7 (first_block ∷ []) one_block_chain second_block {added = true}
      one_block_chain-IsLedger second_block_added

abbrev clock7 : ℕ → ℕ
clock7 i = 7

next_node_id_least_example :
    (r : ℕ) × (next_node_id toy clock7 two_block_chain ≡ some r)
    × (1 ≤ r)
    × (r ≤ size two_block_chain + 1)
    × (contains_valid_node_id toy 7 two_block_chain r ≡ false)
    × ((j : ℕ) → 1 ≤ j → j < r → contains_valid_node_id toy 7 two_block_chain j ≡ true)
next_node_id_least_example = next_node_id_least toy clock7 two_block_chain

abbrev ticking : ℕ → ℕ
ticking n = n * 100000000000

abbrev sample_job : Job
sample_job = record { id = 2; timestamp = noon; pub_key = owner; previous_hash = 7 ∷ [] }

mine_block-Mined_example :
    (r : Option Block) × (mine_block toy 2 ticking sample_job ≡ some r)
    × Mined toy ticking sample_job 0 r
mine_block-Mined_example = mine_block-Mined toy ticking sample_job 2 1 (omega arith) (omega arith)

abbrev found_genesis : Block
found_genesis = trial toy (genesis_job toy 1 owner noon) 0

init_genesis-IsGenesis_example :
    (bc : BlockChain) × (c : Block) × (init_genesis toy 1 owner 1 2 (λ k. noon) (λ k. ticking)
      ≡ some bc)
    × IsGenesis toy 1 owner 2 (λ k. noon) (λ k. ticking) bc c
unfolding mine_block mine_from trial is_valid expired enough_zeros all_zero all_zero_digits
    binary_digits hash get_bytes pub_key_to_bytes little_endian rsa_pub_key_to_bc_pub_key
init_genesis-IsGenesis_example =
    init_genesis-IsGenesis toy 1 owner 2 (λ k. noon) (λ k. ticking) 1 (omega arith)
      (λ j. omega arith) 0 found_genesis refl

abbrev first_ids : List ℕ
first_ids = 1 ∷ []

first_one_valid : contains_valid_node_id toy 7 one_block_chain 1 ≡ true
unfolding contains_valid_node_id block_of genesis_chain get put
first_one_valid = first_block_valid

first_id_valid :
    (id : ℕ) → member id first_ids ≡ true → contains_valid_node_id toy 7 one_block_chain id ≡ true
first_id_valid id listed =
    let one : 1 ≡ id = ground (arith, ==_iff 1 id) in rw (sym one) first_one_valid

valid_identities_bounded_example : 1 ≤ length (select (is_valid toy 7) (first_block ∷ []))
valid_identities_bounded_example =
    valid_identities_bounded toy 7 (first_block ∷ []) one_block_chain first_ids
      one_block_chain-IsLedger (refl, tt) first_id_valid

same_hash_same_chain_example :
    Collides toy (second_block ∷ first_block ∷ []) (second_block ∷ first_block ∷ [])
    ⊎ (((second_block ∷ first_block ∷ []) ≡ (second_block ∷ first_block ∷ []))
        × ((id : ℕ) → block_of two_block_chain id ≡ block_of two_block_chain id)
        × ((now id : ℕ)
            → contains_valid_node_id toy now two_block_chain id
              ≡ contains_valid_node_id toy now two_block_chain id))
same_hash_same_chain_example =
    same_hash_same_chain toy (second_block ∷ first_block ∷ []) (second_block ∷ first_block ∷ [])
      two_block_chain two_block_chain (hash toy second_block) two_block_chain-IsLedger
      two_block_chain-IsLedger (omega arith) (omega arith) (unfold get_last_hash in refl)
      (unfold get_last_hash in refl)
