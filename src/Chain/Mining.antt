-- ===== src/Chain/Mining.antt =====
-- `mineBlock` and `initGenesis` of code/blockchain.go. The clock is read once before the loop and
-- twice in each round: reading 0 is the start, reading 2i+1 is that of `isValid` in round i and
-- reading 2i+2 that of the time limit. The outer `none` says that the fuel ran out.
pub mod Search
pub mod Genesis
use blockchain_sybil_attack.Base.{
  ℕ, zero, suc, ◌+◌, ◌-◌, ◌*◌, Option, none, some, [], ◌∷◌, Bytes, codes, put, nat_eq, put_uint64,
  ltb, if◌then◌else◌,
}
use blockchain_sybil_attack.Chain.Platform.{Platform, Time, RsaPublicKey}
use blockchain_sybil_attack.Chain.Block.{Block, expiration, rsa_pub_key_to_bc_pub_key, is_valid}
use blockchain_sybil_attack.Chain.Ledger.{BlockChain}

-- What `mineBlock` is called with.
pub record Job : Type 0 where
  pub id : ℕ
  pub timestamp : Time
  pub pub_key : RsaPublicKey
  pub previous_hash : Bytes

module _ (lib : Platform) where
  -- The block of round `i`.
  unfoldable pub trial : Job → ℕ → Block
  trial job i = record {
    node_id = job.id;
    timestamp = job.timestamp;
    pub_key = rsa_pub_key_to_bc_pub_key lib job.pub_key;
    nonce = put_uint64 i;
    previous_hash = job.previous_hash;
  }

  unfoldable pub mine_from : ℕ → (ℕ → ℕ) → Job → ℕ → Option (Option Block)
  mine_from zero clock job i = none
  mine_from (suc fuel) clock job i =
      let rest = mine_from fuel clock job (i + 1) in
      if is_valid lib (clock (2 * i + 1)) (trial job i)
      then some (some (trial job i))
      else if ltb expiration (clock (2 * i + 2) - clock 0)
      then some none
      else rest

  unfoldable pub mine_block : ℕ → (ℕ → ℕ) → Job → Option (Option Block)
  mine_block fuel clock job = mine_from fuel clock job 0

-- The three assignments that end `initGenesis`.
unfoldable pub genesis_chain : ℕ → Block → BlockChain
genesis_chain id b = record {
  blocks_per_node_id = some (put [] id b);
  ordered_nodes_ids = id ∷ [];
  last_block = some b;
}

abbrev pub genesis_previous_hash : Bytes
genesis_previous_hash = codes "random string because prevHash cannot be nil"

module _ (lib : Platform) (id : ℕ) (key : RsaPublicKey) where
  abbrev pub genesis_job : Time → Job
  genesis_job now = record {
    id = id;
    timestamp = now;
    pub_key = key;
    previous_hash = genesis_previous_hash;
  }

  -- The loop of `initGenesis`. Attempt `k` is timestamped `now k` and has the clock `clocks k`.
  unfoldable pub genesis_from : ℕ → ℕ → (ℕ → Time) → (ℕ → ℕ → ℕ) → ℕ → Option BlockChain
  genesis_from zero fuel now clocks k = none
  genesis_from (suc tries) fuel now clocks k =
      let rest = genesis_from tries fuel now clocks (k + 1) in
      elim (mine_block lib fuel (clocks k) (genesis_job (now k))) [
        | none ↦ none
        | some none ↦ rest
        | some (some b) ↦ some (genesis_chain id b)
      ]

  unfoldable pub init_genesis : ℕ → ℕ → (ℕ → Time) → (ℕ → ℕ → ℕ) → Option BlockChain
  init_genesis tries fuel now clocks = genesis_from tries fuel now clocks 0
