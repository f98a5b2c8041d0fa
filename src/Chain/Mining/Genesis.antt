-- ===== src/Chain/Mining/Genesis.antt =====
-- The chain that `initGenesis` of code/blockchain.go starts is a ledger of one block.
use blockchain_sybil_attack.Base.{
  ℕ, zero, suc, ◌+◌, ◌-◌, ◌*◌, ◌<◌, ◌≤◌, ◌≡◌, refl, true, inl, inr, Option, none, some, [], ◌∷◌,
  get, put, nat_eq, Option-cases, Bool-cases, nat_eqb, arith,
}
use blockchain_sybil_attack.Chain.Platform.{Platform, Time, RsaPublicKey}
use blockchain_sybil_attack.Chain.Block.{Block, expiration, is_valid}
use blockchain_sybil_attack.Chain.Ledger.{BlockChain, block_of, size}
use blockchain_sybil_attack.Chain.Ledger.Shape.{WellFormed, last_of}
use blockchain_sybil_attack.Chain.Ledger.History.{IsLedger}
use blockchain_sybil_attack.Chain.Mining.{
  trial, mine_block, genesis_chain, genesis_job, genesis_from, init_genesis,
}
use blockchain_sybil_attack.Chain.Mining.Search.{Mined, found, gave_up, mine_block-Mined}

genesis_chain-WellFormed : (b : Block) → WellFormed (genesis_chain b.node_id b)
unfolding genesis_chain block_of size get put last_of
genesis_chain-WellFormed b = record {
  distinct = (refl, tt);
  keys = λ id. ground arith;
  own = λ id c e. ground arith;
  newest = λ c e. ground arith;
  at_end = λ c e. ground arith;
  sized = refl;
}

pub genesis_chain-IsLedger :
    (lib : Platform) (b : Block) → IsLedger lib (b ∷ []) (genesis_chain b.node_id b)
genesis_chain-IsLedger lib b = record {
  has_map = unfold genesis_chain in refl;
  shape = genesis_chain-WellFormed b;
  same_last = unfold genesis_chain in refl;
  same_blocks = λ id. unfold genesis_chain block_of get put in ground arith;
  linked = tt;
}

module _ (lib : Platform) (id : ℕ) (key : RsaPublicKey) (fuel : ℕ) (now : ℕ → Time)
    (clocks : ℕ → ℕ → ℕ) where
  -- A genesis chain: one block, with the node's own identifier, and valid at some reading.
  pub record IsGenesis (bc : BlockChain) (b : Block) : Type 0 where
    pub ledger : IsLedger lib (b ∷ []) bc
    pub named : b.node_id ≡ id
    pub worked : (t : ℕ) × (is_valid lib t b ≡ true)

  found_block :
      (k : ℕ) {b : Block}
      → Mined lib (clocks k) (genesis_job lib id key (now k)) 0 (some b)
      → IsGenesis (genesis_chain id b) b
  unfolding trial
  found_block k {b} (found n p e v f) =
      let same : b.node_id ≡ id = ground arith in
      record {
        ledger = rw (← same) (genesis_chain-IsLedger lib b);
        named = same;
        worked = (clocks k (2 * n + 1), ground arith);
      }
  found_block k (gave_up n p e t f) = absurd (ground arith)

  attempt : ℕ → Option (Option Block)
  attempt k = mine_block lib fuel (clocks k) (genesis_job lib id key (now k))

  before :
      (j k : ℕ) {b : Block} → j ≤ k → attempt j ≡ some none → attempt k ≡ some (some b) → j + 1 ≤ k
  before j k p failed e = elim (Bool-cases (nat_eqb j k)) [
    | inl same ↦ absurd (
        let s : j ≡ k = ground arith in
        let failed' : attempt k ≡ some none = rw s at failed in ground arith)
    | inr other ↦ ground arith
  ]

  module _ (n : ℕ) (enough : n < fuel)
      (late : (j : ℕ) → expiration < clocks j (2 * n + 2) - clocks j 0) where
    genesis_from-IsGenesis :
        (tries j k : ℕ) (b : Block)
        → j ≤ k
        → k < j + tries
        → attempt k ≡ some (some b)
        → (bc : BlockChain) × (c : Block) × (genesis_from lib id key tries fuel now clocks j
            ≡ some bc)
          × IsGenesis bc c
    unfolding genesis_from attempt
    genesis_from-IsGenesis zero j k b p q e = absurd (omega arith)
    genesis_from-IsGenesis (suc tries) j k b p q e =
        let (r, mined, m) =
          mine_block-Mined lib (clocks j) (genesis_job lib id key (now j)) fuel n enough (late j) in
        elim (Option-cases r) [
          | inr (c, got) ↦ (genesis_chain id c, c, ground arith, found_block j (rw got at m))
          | inl nothing ↦
              let (bc, c, more, g) =
                genesis_from-IsGenesis tries (j + 1) k b (before j k p (ground arith) e)
                  (omega arith) e in
              (bc, c, ground arith, g)
        ]

    -- If the clock of every attempt passes the time limit in round `n`, and attempt `k` mines a
    -- block, then `initGenesis` ends within `k + 1` attempts, with a chain that is a ledger of one
    -- block, which has the node's identifier and passed the test of validity.
    pub init_genesis-IsGenesis :
        (k : ℕ) (b : Block)
        → mine_block lib fuel (clocks k) (genesis_job lib id key (now k)) ≡ some (some b)
        → (bc : BlockChain) × (c : Block) × (init_genesis lib id key (k + 1) fuel now clocks
            ≡ some bc)
          × IsGenesis bc c
    unfolding init_genesis attempt
    init_genesis-IsGenesis k b e =
        genesis_from-IsGenesis (k + 1) 0 k b (omega arith) (omega arith) e
