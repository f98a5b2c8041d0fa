-- ===== src/Chain/Ledger/NodeIds.antt =====
-- `nextNodeID` of code/blockchain.go ends, and proposes the least identifier that is free.
use blockchain_sybil_attack.Base.{
  ℕ, zero, suc, ◌+◌, ◌≤◌, ◌<◌, ◌≡◌, true, false, none, some, [], ◌∷◌, Map, get, length, leb, nat_eq,
  Bool-cases, Option-cases, inl, inr, if◌then◌else◌, arith,
}
use blockchain_sybil_attack.Chain.Platform.{Platform}
use blockchain_sybil_attack.Chain.Block.{Block, is_valid}
use blockchain_sybil_attack.Chain.Ledger.{
  BlockChain, block_of, size, contains_valid_node_id, next_from, next_node_id,
}

-- The entries of a map with a key from `i` on.
entries_from : ℕ → Map ℕ Block → ℕ
entries_from i [] = 0
entries_from i ((j, b) ∷ m) = if leb i j then suc (entries_from i m) else entries_from i m

entries_from-le : (i : ℕ) (m : Map ℕ Block) → entries_from i m ≤ length m
unfolding entries_from
entries_from-le i [] = omega arith
entries_from-le i ((j, b) ∷ m) = ground (arith, entries_from-le i m)

entries_from_mono : (i : ℕ) (m : Map ℕ Block) → entries_from (i + 1) m ≤ entries_from i m
unfolding entries_from
entries_from_mono i [] = omega arith
entries_from_mono i ((j, b) ∷ m) = ground (arith, entries_from_mono i m)

entries_from_lt :
    (i : ℕ) (m : Map ℕ Block) {b : Block}
    → get m i ≡ some b
    → entries_from (i + 1) m < entries_from i m
unfolding entries_from get
entries_from_lt i [] h = cc
entries_from_lt i ((j, c) ∷ m) {b} h =
    ground (arith, entries_from_lt i m {b = b}, entries_from_mono i m)

pub entries : ℕ → BlockChain → ℕ
entries i bc = elim bc.blocks_per_node_id [ none ↦ 0 | some m ↦ entries_from i m ]

entries_lt :
    (i : ℕ) (bc : BlockChain) {b : Block}
    → block_of bc i ≡ some b
    → entries (i + 1) bc < entries i bc
unfolding entries block_of
entries_lt i bc {b} h = elim (Option-cases bc.blocks_per_node_id) [
  | inl nothing ↦ absurd (ground arith)
  | inr (m, here) ↦ ground (arith, entries_from_lt i m {b = b})
]

entries-le-size : (i : ℕ) (bc : BlockChain) → entries i bc ≤ size bc
unfolding entries size
entries-le-size i bc = elim (Option-cases bc.blocks_per_node_id) [
  | inl nothing ↦ rw nothing (omega arith)
  | inr (m, here) ↦ rw here (entries_from-le i m)
]

-- The identifier `r` is not taken by a valid block, and every one from `i` up to it is.
pub record IsLeastFree (lib : Platform) (clock : ℕ → ℕ) (bc : BlockChain) (i r : ℕ) : Type 0 where
  pub above : i ≤ r
  pub free : contains_valid_node_id lib (clock r) bc r ≡ false
  pub taken : (j : ℕ) → i ≤ j → j < r → contains_valid_node_id lib (clock j) bc j ≡ true
  pub near : r ≤ i + entries i bc

module _ (lib : Platform) (clock : ℕ → ℕ) (bc : BlockChain) where
  stops_here :
      (i : ℕ) → contains_valid_node_id lib (clock i) bc i ≡ false → IsLeastFree lib clock bc i i
  stops_here i h = record {
    above = omega arith;
    free = h;
    taken = λ j p q. absurd (omega arith);
    near = omega arith;
  }

  goes_on :
      (i r : ℕ) {b : Block}
      → block_of bc i ≡ some b
      → contains_valid_node_id lib (clock i) bc i ≡ true
      → IsLeastFree lib clock bc (i + 1) r
      → IsLeastFree lib clock bc i r
  goes_on i r e h f = record {
    above = omega arith;
    free = f.free;
    taken = λ j p q. ground (arith, f.taken j);
    near = omega (arith, entries_lt i bc e);
  }

  next_from-IsLeastFree :
      (fuel i : ℕ)
      → entries i bc < fuel
      → (r : ℕ) × (next_from lib fuel clock bc i ≡ some r) × IsLeastFree lib clock bc i r
  unfolding next_from contains_valid_node_id
  next_from-IsLeastFree zero i h = absurd (omega arith)
  next_from-IsLeastFree (suc fuel) i h = elim (Option-cases (block_of bc i)) [
    | inl nothing ↦ (i, ground arith, stops_here i (ground arith))
    | inr (b, here) ↦ elim (Bool-cases (is_valid lib (clock i) b)) [
      | inr old ↦ (i, ground arith, stops_here i (ground arith))
      | inl valid ↦
          let (r, e, f) =
            next_from-IsLeastFree fuel (i + 1) (omega (arith, entries_lt i bc here)) in
          (r, ground arith, goes_on i r here (ground arith) f)
    ]
  ]

  -- `nextNodeID` ends within one round more than there are blocks, and returns the least
  -- identifier from 1 on that no valid block holds, which is at most one above their number.
  pub next_node_id_least :
      (r : ℕ) × (next_node_id lib clock bc ≡ some r)
      × (1 ≤ r)
      × (r ≤ size bc + 1)
      × (contains_valid_node_id lib (clock r) bc r ≡ false)
      × ((j : ℕ) → 1 ≤ j → j < r → contains_valid_node_id lib (clock j) bc j ≡ true)
  unfolding next_node_id
  next_node_id_least =
      let (r, e, f) = next_from-IsLeastFree (size bc + 1) 1 (omega (arith, entries-le-size 1 bc)) in
      (r, e, f.above, omega (arith, f.near, entries-le-size 1 bc), f.free, f.taken)
