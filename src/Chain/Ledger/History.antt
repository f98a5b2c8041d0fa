-- ===== src/Chain/Ledger/History.antt =====
-- The chain of code/blockchain.go as a ledger: the list of the blocks that were ever accepted,
-- newest first, to which a block is only ever added.
use blockchain_sybil_attack.Base.{
  ℕ, ◌≡◌, refl, Bool, true, false, ◌&&◌, Option, none, some, List, [], ◌∷◌, is_some, ◌==◌, nat_eq,
  text_eq, ==_iff, Bool-cases, inl, inr, if◌then◌else◌, ok, arith, Option-cases,
}
use blockchain_sybil_attack.Chain.Platform.{Platform}
use blockchain_sybil_attack.Chain.Block.{Block, hash, is_valid}
use blockchain_sybil_attack.Chain.Ledger.{
  BlockChain, block_of, stored_in, matches_last, store_block, add_block,
}
use blockchain_sybil_attack.Chain.Ledger.Shape.{
  WellFormed, accepted, refused, add_block-Added, add_block-WellFormed, block_of-stored_in,
}

abbrev pub first : List Block → Option Block
first [] = none
first (b ∷ h) = some b

-- The newest block of an identifier.
abbrev pub latest : List Block → ℕ → Option Block
latest [] id = none
latest (b ∷ h) id = if b.node_id == id then some b else latest h id

-- Each block names the hash of the one before it.
abbrev pub Linked : Platform → List Block → Type 0
Linked lib [] = Unit
Linked lib (b ∷ []) = Unit
Linked lib (b ∷ c ∷ h) = (b.previous_hash ≡ hash lib c) × Linked lib (c ∷ h)

abbrev pub links : Platform → List Block → Block → Bool
links lib h b = elim (first h) [ none ↦ true | some l ↦ b.previous_hash == hash lib l ]

-- The chain holds what the ledger says: the newest block of each identifier, and the newest of all.
pub record IsLedger (lib : Platform) (h : List Block) (bc : BlockChain) : Type 0 where
  pub has_map : is_some bc.blocks_per_node_id ≡ true
  pub shape : WellFormed bc
  pub same_last : bc.last_block ≡ first h
  pub same_blocks : (id : ℕ) → block_of bc id ≡ latest h id
  pub linked : Linked lib h

-- The abstract operation: append a valid block that links to the newest one.
abbrev pub append : Platform → ℕ → List Block → Block → List Block
append lib now h b = if is_valid lib now b && links lib h b then b ∷ h else h

Linked-cons :
    (lib : Platform) (h : List Block) (b : Block)
    → links lib h b ≡ true
    → Linked lib h
    → Linked lib (b ∷ h)
Linked-cons lib [] b e l = tt
Linked-cons lib (c ∷ h) b e l = ((==_iff b.previous_hash (hash lib c)).0 e, l)

module _ (lib : Platform) (now : ℕ) (h : List Block) (bc : BlockChain) (b : Block) where
  links-matches_last : bc.last_block ≡ first h → matches_last lib bc b ≡ links lib h b
  unfolding matches_last
  links-matches_last e = rw e

  -- `addBlock` on a chain that has a map returns.
  add_block-total :
      is_some bc.blocks_per_node_id ≡ true
      → (bc' : BlockChain) × (added : Bool) × (add_block lib now bc b ≡ ok (bc', added))
  unfolding add_block store_block
  add_block-total e = elim (Bool-cases (is_valid lib now b && matches_last lib bc b)) [
    | inr bad ↦ (bc, false, rw bad)
    | inl good ↦ elim (Option-cases bc.blocks_per_node_id) [
      | inl nothing ↦ absurd (ground arith)
      | inr (m, here) ↦ (stored_in bc m b, true, rw (good, here))
    ]
  ]

  -- One call of `addBlock` is one abstract append.
  pub add_block-IsLedger :
      {bc' : BlockChain} {added : Bool}
      → IsLedger lib h bc
      → add_block lib now bc b ≡ ok (bc', added)
      → IsLedger lib (append lib now h b) bc'
  add_block-IsLedger {bc'} {added} l e = elim (add_block-Added lib now bc b e) [
    | refused bad not_added same ↦
        let skip : (is_valid lib now b && links lib h b) ≡ false =
          rw (← links-matches_last l.same_last) bad in
        rw (skip, same) l
    | accepted m here valid match yes_added same ↦
        let link : links lib h b ≡ true = rw (← links-matches_last l.same_last) match in
        let keep : (is_valid lib now b && links lib h b) ≡ true = ground arith in
        rw keep record {
          has_map = rw same (unfold stored_in in refl);
          shape = add_block-WellFormed lib now bc b l.shape e;
          same_last = rw same (unfold stored_in in refl);
          same_blocks = λ id. rw (same, block_of-stored_in bc m b id here, l.same_blocks id);
          linked = Linked-cons lib h b link l.linked;
        }
  ]

-- `addBlock` accepts a valid block that links to the newest one, and it is then the last block.
pub add_block-accepts :
    (lib : Platform) (now : ℕ) (bc : BlockChain) (b : Block)
    → is_some bc.blocks_per_node_id ≡ true
    → is_valid lib now b ≡ true
    → matches_last lib bc b ≡ true
    → (bc' : BlockChain) × (add_block lib now bc b ≡ ok (bc', true))
      × (bc'.last_block ≡ some b)
      × (block_of bc' b.node_id ≡ some b)
unfolding add_block store_block
add_block-accepts lib now bc b e valid match = elim (Option-cases bc.blocks_per_node_id) [
  | inl nothing ↦ absurd (ground arith)
  | inr (m, here) ↦ (
    stored_in bc m b,
    ground arith,
    unfold stored_in in refl,
    rw block_of-stored_in (ground (arith, ==_iff b.node_id b.node_id)),
  )
]
