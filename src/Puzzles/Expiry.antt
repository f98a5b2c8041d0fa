-- ===== src/Puzzles/Expiry.antt =====
-- What the expiry of blocks makes of a chain that a joiner is sent, by code/puzzleshandler.go.
use blockchain_sybil_attack.Base.{
  ℕ, ◌+◌, ◌≡◌, ◌∙◌, true, false, none, some, List, [], ◌∷◌, is_some, ==_iff, ==_refl, nat_eq,
  text_eq, ok, panic, bad_integrity, arith, inl, inr, Option-cases, Bool-cases,
}
use blockchain_sybil_attack.Chain.Platform.{Platform}
use blockchain_sybil_attack.Chain.Block.{Block, is_valid}
use blockchain_sybil_attack.Chain.Ledger.{BlockChain, block_of, check_from, check_integrity}
use blockchain_sybil_attack.Chain.Ledger.Shape.{member}
use blockchain_sybil_attack.Chain.Ledger.History.{IsLedger, latest}
use blockchain_sybil_attack.Chain.Ledger.Integrity.{AllValid}
use blockchain_sybil_attack.Puzzles.{PuzzlesState, handle_block_chain}

module _ (lib : Platform) (clock : ℕ → ℕ) (bc : BlockChain) where
  -- A chain whose blocks are there and valid at every reading.
  pub AllValid-fresh :
      (i : ℕ) (ids : List ℕ)
      → ((id : ℕ) → member id ids ≡ true → is_some (block_of bc id) ≡ true)
      → ((j id : ℕ) (c : Block) → block_of bc id ≡ some c → is_valid lib (clock j) c ≡ true)
      → AllValid lib clock i bc ids
  AllValid-fresh i [] there fresh = tt
  AllValid-fresh i (id ∷ ids) there fresh = elim (Option-cases (block_of bc id)) [
    | inl missing ↦ absurd (ground (arith, there id, ==_refl id))
    | inr (c, here) ↦ (
      (c, here, fresh i id c here),
      AllValid-fresh (i + 1) ids (λ k h. there k (ground arith)) fresh,
    )
  ]

  -- A chain with an expired block.
  check_from-refuses :
      (i : ℕ) (ids : List ℕ) (id : ℕ) (c : Block)
      → ((k : ℕ) → member k ids ≡ true → is_some (block_of bc k) ≡ true)
      → member id ids ≡ true
      → block_of bc id ≡ some c
      → ((j : ℕ) → is_valid lib (clock j) c ≡ false)
      → check_from lib clock i bc ids none ≡ ok false
  unfolding check_from
  check_from-refuses i [] id c there mem here old = absurd (ground arith)
  check_from-refuses i (n ∷ ids) id c there mem here old = elim (Option-cases (block_of bc n)) [
    | inl missing ↦ absurd (ground (arith, there n, ==_refl n))
    | inr (d, found) ↦ elim (Bool-cases (is_valid lib (clock i) d)) [
      | inr bad ↦ ground arith
      | inl good ↦
          let rest =
            check_from-refuses (i + 1) ids id c (λ k h. there k (ground arith))
              (grind (arith, ==_iff n id, old i)) here old in
          ground arith
    ]
  ]

-- A node that has not joined panics on a chain that keeps a ledger, if the newest block of some
-- identifier is not valid at any of the readings of the clock with which the chain may be checked.
pub expired_block_refused :
    (lib : Platform) (clock : ℕ → ℕ) (js : PuzzlesState) (h : List Block) (bc : BlockChain) (id : ℕ)
    (c : Block)
    → js.joined ≡ false
    → IsLedger lib h bc
    → latest h id ≡ some c
    → ((j : ℕ) → is_valid lib (clock j) c ≡ false)
    → handle_block_chain lib clock js (record { chain = some bc }) ≡ panic bad_integrity
unfolding handle_block_chain check_integrity
expired_block_refused lib clock js h bc id c out ledger newest old =
    let here = ledger.same_blocks id ∙ newest in
    let refused =
      check_from-refuses lib clock bc 0 bc.ordered_nodes_ids id c (λ k m. ledger.shape.keys k ∙ m)
        (grind (arith, ledger.shape.keys id)) here old in
    ground arith
