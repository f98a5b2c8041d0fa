-- ===== src/Chain/Ledger/Integrity.antt =====
-- What `checkIntegrity` of code/blockchain.go checks, and `nonExpiredBlockChain`.
use blockchain_sybil_attack.Base.{
  ℕ, ◌+◌, ◌≡◌, ◌↔◌, refl, true, none, some, List, [], ◌∷◌, Bool-cases, Option-cases, inl, inr, ok,
  panic, arith, index_out_of_range, All,
}
use blockchain_sybil_attack.Chain.Platform.{Platform}
use blockchain_sybil_attack.Chain.Block.{Block, is_valid, expired}
use blockchain_sybil_attack.Chain.Ledger.{
  BlockChain, block_of, check_from, check_integrity, drop_expired, non_expired_block_chain,
}

-- Every identifier of the list has a block that is valid when the loop comes to it.
abbrev pub AllValid : Platform → (ℕ → ℕ) → ℕ → BlockChain → List ℕ → Type 0
AllValid lib clock i bc [] = Unit {0}
AllValid lib clock i bc (id ∷ ids) =
    ((b : Block) × (block_of bc id ≡ some b) × (is_valid lib (clock i) b ≡ true))
    × AllValid lib clock (i + 1) bc ids

module _ (lib : Platform) (clock : ℕ → ℕ) (bc : BlockChain) where
  check_from_sound :
      (i : ℕ) (ids : List ℕ)
      → check_from lib clock i bc ids none ≡ ok true
      → AllValid lib clock i bc ids
  unfolding check_from
  check_from_sound i [] h = tt
  check_from_sound i (id ∷ ids) h = elim (Option-cases (block_of bc id)) [
    | inl nothing ↦ absurd (ground arith)
    | inr (b, here) ↦ elim (Bool-cases (is_valid lib (clock i) b)) [
      | inr old ↦ absurd (ground arith)
      | inl valid ↦ ((b, here, valid), check_from_sound (i + 1) ids (ground arith))
    ]
  ]

  check_from_complete :
      (i : ℕ) (ids : List ℕ)
      → AllValid lib clock i bc ids
      → check_from lib clock i bc ids none ≡ ok true
  unfolding check_from
  check_from_complete i [] h = refl
  check_from_complete i (id ∷ ids) ((b, here, valid), rest) =
      rw (here, valid) (check_from_complete (i + 1) ids rest)

  -- `checkIntegrity` accepts a chain exactly when each listed block is there and valid: the loop
  -- never sets `prevHash`, so no `PreviousHash` is ever compared.
  pub check_integrity_iff :
      (check_integrity lib clock bc ≡ ok true) ↔ AllValid lib clock 0 bc bc.ordered_nodes_ids
  unfolding check_integrity
  check_integrity_iff =
      (check_from_sound 0 bc.ordered_nodes_ids, check_from_complete 0 bc.ordered_nodes_ids)

-- The block of the identifier is there, and has expired at every reading.
abbrev IsOld : (ℕ → ℕ) → BlockChain → ℕ → Type 0
IsOld clock bc id = (b : Block) × (block_of bc id ≡ some b) × ((i : ℕ) → expired (clock i) b ≡ true)

drop_expired_panics :
    (clock : ℕ → ℕ) (bc : BlockChain) (i : ℕ) (ids : List ℕ)
    → All (IsOld clock bc) ids
    → drop_expired clock i bc ids ≡ panic index_out_of_range
unfolding drop_expired
drop_expired_panics clock bc i [] h = refl
drop_expired_panics clock bc i (id ∷ ids) ((b, here, old), rest) =
    ground (arith, old i, drop_expired_panics clock bc (i + 1) ids rest)

-- `nonExpiredBlockChain` panics on a chain whose blocks have all expired.
pub non_expired_block_chain_panics :
    (clock : ℕ → ℕ) (bc : BlockChain)
    → All (IsOld clock bc) bc.ordered_nodes_ids
    → non_expired_block_chain clock bc ≡ panic index_out_of_range
unfolding non_expired_block_chain
non_expired_block_chain_panics clock bc h =
    ground (arith, drop_expired_panics clock bc 0 bc.ordered_nodes_ids h)
