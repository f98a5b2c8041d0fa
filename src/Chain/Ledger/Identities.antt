-- ===== src/Chain/Ledger/Identities.antt =====
-- How many identities a chain of code/blockchain.go gives out.
use blockchain_sybil_attack.Base.{
  ℕ, suc, ◌≤◌, ◌≡◌, refl, ap, sym, ◌∙◌, true, Bool-cases, Option-cases, inl, inr, some, List, [],
  ◌∷◌, map, length, select, ◌==◌, ==_refl, nat_eq, if◌then◌else◌, arith,
}
use blockchain_sybil_attack.Chain.Platform.{Platform}
use blockchain_sybil_attack.Chain.Block.{Block, is_valid}
use blockchain_sybil_attack.Chain.Ledger.{BlockChain, block_of, without_id, contains_valid_node_id}
use blockchain_sybil_attack.Chain.Ledger.Shape.{
  member, Distinct, member-without_id, Distinct-without_id, length-without_id,
}
use blockchain_sybil_attack.Chain.Ledger.History.{IsLedger, latest}

-- Distinct identifiers that are all in a list are no more than its elements.
pigeonhole :
    (js ids : List ℕ)
    → Distinct ids
    → ((id : ℕ) → member id ids ≡ true → member id js ≡ true)
    → length ids ≤ length js
pigeonhole [] [] distinct within = omega arith
pigeonhole [] (n ∷ ids) distinct within = absurd (ground (arith, within n, ==_refl n))
pigeonhole (j ∷ js) ids distinct within =
    let others : (id : ℕ) → member id (without_id ids j) ≡ true → member id js ≡ true =
      λ id m. ground (arith, within id, member-without_id id j ids) in
    let fewer = pigeonhole js (without_id ids j) (Distinct-without_id j ids distinct) others in
    let one = length-without_id j ids distinct in ground arith

module _ (lib : Platform) (now : ℕ) where
  -- The identifiers of the blocks that are valid at this reading.
  identifiers : List Block → List ℕ
  identifiers h = map (λ b. b.node_id) (select (is_valid lib now) h)

  length-identifiers : (bs : List Block) → length (map (λ (b : Block). b.node_id) bs) ≡ length bs
  length-identifiers [] = refl
  length-identifiers (b ∷ bs) = ap suc (length-identifiers bs)

  identifiers-cons :
      (c : Block) (h : List Block)
      → identifiers (c ∷ h)
        ≡ (if is_valid lib now c then c.node_id ∷ identifiers h else identifiers h)
  unfolding identifiers
  identifiers-cons c h = elim (Bool-cases (is_valid lib now c)) [
    | inl valid ↦ rw valid refl
    | inr old ↦ rw old refl
  ]

  valid_is_listed :
      (h : List Block) (id : ℕ) (b : Block)
      → latest h id ≡ some b
      → is_valid lib now b ≡ true
      → member id (identifiers h) ≡ true
  valid_is_listed [] id b newest valid = absurd (ground arith)
  valid_is_listed (c ∷ h) id b newest valid = elim (Bool-cases (c.node_id == id)) [
    | inl here ↦
        let same : c ≡ b = ground arith in
        let also : is_valid lib now c ≡ true = rw same valid in
        rw (identifiers-cons c h, also) (ground arith)
    | inr other ↦
        let later = valid_is_listed h id b (ground arith) valid in
        let step = identifiers-cons c h in
        elim (Bool-cases (is_valid lib now c)) [
          | inl fresh ↦ rw (step, fresh) (ground arith)
          | inr old ↦ rw (step, old) later
        ]
  ]

  -- At any reading of the clock, distinct identifiers that are all valid in the chain of a ledger are
  -- no more than the blocks of the ledger that are valid at this reading.
  pub valid_identities_bounded :
      (h : List Block) (bc : BlockChain) (ids : List ℕ)
      → IsLedger lib h bc
      → Distinct ids
      → ((id : ℕ) → member id ids ≡ true → contains_valid_node_id lib now bc id ≡ true)
      → length ids ≤ length (select (is_valid lib now) h)
  unfolding contains_valid_node_id identifiers
  valid_identities_bounded h bc ids ledger distinct valid =
      let listed : (id : ℕ) → member id ids ≡ true → member id (identifiers h) ≡ true = λ id m.
        elim (Option-cases (block_of bc id)) [
          | inl missing ↦ absurd (ground (arith, valid id))
          | inr (b, here) ↦
              valid_is_listed h id b (sym (ledger.same_blocks id) ∙ here) (ground (arith, valid id))
        ] in
      let bound = pigeonhole (identifiers h) ids distinct listed in
      let same = length-identifiers (select (is_valid lib now) h) in omega arith
