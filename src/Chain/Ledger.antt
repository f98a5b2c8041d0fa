-- ===== src/Chain/Ledger.antt =====
-- The type `BlockChain` of code/blockchain.go and its methods. A map or a block that may be nil is
-- an `Option`; a nil dereference, a write to a nil map and an index out of range are panics.
-- A loop that reads the clock in each round takes the readings as a function of the round.
pub mod Shape
pub mod History
pub mod Agreement
pub mod Identities
pub mod NodeIds
pub mod Integrity
use blockchain_sybil_attack.Base.{
  ℕ, zero, suc, ◌+◌, Bool, true, false, not, ◌&&◌, Option, none, some, List, [], ◌∷◌, ◌++◌, Bytes,
  Map, get, put, length, is_some, ◌==◌, nat_eq, text_eq, if◌then◌else◌, Outcome, ok, panic, deref,
  nil_map_write, index_out_of_range, ◌>>=◌,
}
use blockchain_sybil_attack.Chain.Platform.{Platform}
use blockchain_sybil_attack.Chain.Block.{Block, hash, expired, is_valid}

pub record BlockChain : Type 0 where
  pub blocks_per_node_id : Option (Map ℕ Block)
  pub ordered_nodes_ids : List ℕ
  pub last_block : Option Block

-- `&BlockChain{}`.
abbrev pub no_chain : BlockChain
no_chain = record { blocks_per_node_id = none; ordered_nodes_ids = []; last_block = none }

-- `bc.BlocksPerNodeID[id]`; a read of a nil map finds nothing.
unfoldable pub block_of : BlockChain → ℕ → Option Block
block_of bc id = elim bc.blocks_per_node_id [ none ↦ none | some m ↦ get m id ]

-- The loop of `addNodeIDToList`, which copies the other identifiers.
unfoldable pub without_id : List ℕ → ℕ → List ℕ
without_id [] id = []
without_id (n ∷ ns) id = let res = without_id ns id in if not (n == id) then n ∷ res else res

unfoldable pub add_node_id_to_list : BlockChain → ℕ → List ℕ
add_node_id_to_list bc id = without_id bc.ordered_nodes_ids id ++ id ∷ []

-- The three assignments of `addBlock` on a chain whose map is `m`.
unfoldable pub stored_in : BlockChain → Map ℕ Block → Block → BlockChain
stored_in bc m b = record {
  blocks_per_node_id = some (put m b.node_id b);
  ordered_nodes_ids = add_node_id_to_list bc b.node_id;
  last_block = some b;
}

-- What `addBlock` does under its guard.
unfoldable pub store_block : BlockChain → Block → Outcome BlockChain
store_block bc b = elim bc.blocks_per_node_id [
  | none ↦ panic nil_map_write
  | some m ↦ ok (stored_in bc m b)
]

-- `_,ok := bc.BlocksPerNodeID[b.NodeID]`; the nil test before it gives the same.
unfoldable pub contains_block : BlockChain → Block → Bool
contains_block bc b = is_some (block_of bc b.node_id)

-- `validNodesIDs := bc.OrderedNodesIDs[(i-1):]` after the loop that stops at the first block that
-- has not expired; `i` runs past the end when all have.
unfoldable pub drop_expired : (ℕ → ℕ) → ℕ → BlockChain → List ℕ → Outcome (List ℕ)
drop_expired clock i bc [] = panic index_out_of_range
drop_expired clock i bc (id ∷ ids) =
    let rest = drop_expired clock (i + 1) bc ids in
    do b ← deref (block_of bc id); if not (expired (clock i) b) then ok (id ∷ ids) else rest

-- The loop that copies the entries of the remaining identifiers; a missing one is copied as nil,
-- which the map of blocks that are not nil leaves out.
unfoldable pub copy_blocks : BlockChain → List ℕ → Map ℕ Block → Map ℕ Block
copy_blocks bc [] m = m
copy_blocks bc (id ∷ ids) m =
    copy_blocks bc ids (elim (block_of bc id) [ none ↦ m | some b ↦ put m id b ])

unfoldable pub non_expired_block_chain : (ℕ → ℕ) → BlockChain → Outcome BlockChain
non_expired_block_chain clock bc = do
  ids ← drop_expired clock 0 bc bc.ordered_nodes_ids
  ok (record {
    blocks_per_node_id = some (copy_blocks bc ids []);
    ordered_nodes_ids = ids;
    last_block = bc.last_block;
  })

module _ (lib : Platform) where
  unfoldable pub get_last_hash : BlockChain → Outcome Bytes
  get_last_hash bc = do b ← deref bc.last_block; ok (hash lib b)

  unfoldable pub matches_last : BlockChain → Block → Bool
  matches_last bc b = elim bc.last_block [ none ↦ true | some l ↦ b.previous_hash == hash lib l ]

  unfoldable pub add_block : ℕ → BlockChain → Block → Outcome (BlockChain × Bool)
  add_block now bc b =
      if is_valid lib now b && matches_last bc b
      then (do bc' ← store_block bc b; ok (bc', true))
      else ok (bc, false)

  unfoldable pub contains_valid_node_id : ℕ → BlockChain → ℕ → Bool
  contains_valid_node_id now bc id = elim (block_of bc id) [
    | none ↦ false
    | some b ↦ is_valid lib now b
  ]

  -- The loop from `i`; `clock i` is the reading at that round, and `none` says that the fuel ran out.
  unfoldable pub next_from : ℕ → (ℕ → ℕ) → BlockChain → ℕ → Option ℕ
  next_from zero clock bc i = none
  next_from (suc fuel) clock bc i =
      let rest = next_from fuel clock bc (i + 1) in
      elim (block_of bc i) [
        | none ↦ some i
        | some b ↦ if not (is_valid lib (clock i) b) then some i else rest
      ]

  -- The loop of `checkIntegrity`, round `i`.
  unfoldable pub check_from : (ℕ → ℕ) → ℕ → BlockChain → List ℕ → Option Bytes → Outcome Bool
  check_from clock i bc [] prev_hash = ok true
  check_from clock i bc (id ∷ ids) prev_hash =
      let rest = λ (p : Option Bytes). check_from clock (i + 1) bc ids p in
      do
        b ← deref (block_of bc id)
        if not (is_valid lib (clock i) b) then ok false else elim prev_hash [
          | none ↦ rest none
          | some p ↦ if not (b.previous_hash == p) then ok false else rest (some (hash lib b))
        ]

  unfoldable pub check_integrity : (ℕ → ℕ) → BlockChain → Outcome Bool
  unfolding check_from
  check_integrity clock bc = check_from clock 0 bc bc.ordered_nodes_ids none

-- The map's size, which bounds the rounds of `nextNodeID`.
unfoldable pub size : BlockChain → ℕ
size bc = elim bc.blocks_per_node_id [ none ↦ 0 | some m ↦ length m ]

-- `nextNodeID`, with one round more than there are blocks.
unfoldable pub next_node_id : Platform → (ℕ → ℕ) → BlockChain → Option ℕ
next_node_id lib clock bc = next_from lib (size bc + 1) clock bc 1
