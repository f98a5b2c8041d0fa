-- ===== src/Chain/Ledger/Agreement.antt =====
-- Two chains of code/blockchain.go with the same newest hash.
use blockchain_sybil_attack.Base.{
  ℕ, ◌≡◌, ◌≢◌, refl, sym, ap, ◌∙◌, List, [], ◌∷◌, length, Bytes, ok, arith, inl, inr, ◌⊎◌,
}
use mathlib.Core.Option
use native.Mathlib.Decide.{ℕ_discrete}
use blockchain_sybil_attack.Chain.Platform.{Platform}
use blockchain_sybil_attack.Chain.Block.{Block, hash}
use blockchain_sybil_attack.Chain.Ledger.{
  BlockChain, block_of, get_last_hash, contains_valid_node_id,
}
use blockchain_sybil_attack.Chain.Ledger.History.{IsLedger, Linked, first, latest}

-- The oldest block names no hash: what stands in its place has another length.
abbrev pub Rooted : List Block → Type 0
Rooted [] = Unit
Rooted (b ∷ []) = length b.previous_hash ≢ 32
Rooted (b ∷ c ∷ h) = Rooted (c ∷ h)

-- The block is one of the list.
abbrev pub In : Block → List Block → Type 0
In b [] = ⊥
In b (c ∷ h) = (c ≡ b) ⊎ In b h

-- Two different blocks, one of each list, have the same hash.
pub record Collides (lib : Platform) (h k : List Block) : Type 0 where
  pub one : Block
  pub other : Block
  pub in_first : In one h
  pub in_second : In other k
  pub differ : one ≢ other
  pub same_hash : hash lib one ≡ hash lib other

Block-discrete : Discrete Block
Block-discrete = hlevel (ℕ_discrete)

module _ (lib : Platform) where
  hash-length : (b : Block) → length (hash lib b) ≡ 32
  unfolding hash
  hash-length b = lib.sha256_length _

  Collides-cons : (b c : Block) (h k : List Block) → Collides lib h k → Collides lib (b ∷ h) (c ∷ k)
  Collides-cons b c h k x = record {
    one = x.one;
    other = x.other;
    in_first = inr x.in_first;
    in_second = inr x.in_second;
    differ = x.differ;
    same_hash = x.same_hash;
  }

  -- The oldest block of one ledger is no later block of another.
  younger-not-Rooted :
      (b c y : Block) (k : List Block) → b ≡ c → Linked lib (c ∷ y ∷ k) → ¬ Rooted (b ∷ [])
  younger-not-Rooted b c y k e l r =
      r (ap (λ (x : Block). length x.previous_hash) e ∙ ap length l.0 ∙ hash-length y)

  different :
      (b c : Block) (h k : List Block)
      → b ≢ c
      → hash lib b ≡ hash lib c
      → Collides lib (b ∷ h) (c ∷ k)
  different b c h k other e = record {
    one = b;
    other = c;
    in_first = inl refl;
    in_second = inl refl;
    differ = other;
    same_hash = e;
  }

  -- Two ledgers whose newest blocks have the same hash are the same, but for a collision.
  pub same_tip :
      (h k : List Block) (b c : Block)
      → Linked lib (b ∷ h)
      → Linked lib (c ∷ k)
      → Rooted (b ∷ h)
      → Rooted (c ∷ k)
      → hash lib b ≡ hash lib c
      → (b ∷ h ≡ c ∷ k) ⊎ Collides lib (b ∷ h) (c ∷ k)
  same_tip [] [] b c l m r q e = elim (Block-discrete b c) [
    | no other ↦ inr (different b c [] [] other e)
    | yes same ↦ inl (ap (λ x. x ∷ []) same)
  ]
  same_tip [] (y ∷ k) b c l m r q e = elim (Block-discrete b c) [
    | no other ↦ inr (different b c [] (y ∷ k) other e)
    | yes same ↦ absurd (younger-not-Rooted b c y k same m r)
  ]
  same_tip (x ∷ h) [] b c l m r q e = elim (Block-discrete b c) [
    | no other ↦ inr (different b c (x ∷ h) [] other e)
    | yes same ↦ absurd (younger-not-Rooted c b x h (sym same) l q)
  ]
  same_tip (x ∷ h) (y ∷ k) b c l m r q e = elim (Block-discrete b c) [
    | no other ↦ inr (different b c (x ∷ h) (y ∷ k) other e)
    | yes same ↦
        let hashes : hash lib x ≡ hash lib y =
          sym l.0 ∙ ap (λ (z : Block). z.previous_hash) same ∙ m.0 in
        elim (same_tip h k x y l.1 m.1 r q hashes) [
          | inl rest ↦ inl (cc (same, rest))
          | inr found ↦ inr (Collides-cons b c (x ∷ h) (y ∷ k) found)
        ]
  ]

  same_newest :
      (h k : List Block)
      → Linked lib h
      → Linked lib k
      → Rooted h
      → Rooted k
      → Option.map (hash lib) (first h) ≡ Option.map (hash lib) (first k)
      → (h ≡ k) ⊎ Collides lib h k
  same_newest [] [] l m r q e = inl refl
  same_newest [] (c ∷ k) l m r q e = absurd (ground arith)
  same_newest (b ∷ h) [] l m r q e = absurd (ground arith)
  same_newest (b ∷ h) (c ∷ k) l m r q e = same_tip h k b c l m r q (ground arith)

  -- Two chains that keep ledgers and have the same newest hash hold the same block under every
  -- identifier, and the same identifiers are valid in both at any reading of the clock, unless two
  -- different blocks, one of each ledger, have the same hash; provided that in both ledgers the
  -- oldest block names no hash.
  pub same_hash_same_chain :
      (h k : List Block) (bc bd : BlockChain) (last : Bytes)
      → IsLedger lib h bc
      → IsLedger lib k bd
      → Rooted h
      → Rooted k
      → get_last_hash lib bc ≡ ok last
      → get_last_hash lib bd ≡ ok last
      → Collides lib h k
        ⊎ ((h ≡ k)
            × ((id : ℕ) → block_of bc id ≡ block_of bd id)
            × ((now id : ℕ)
                → contains_valid_node_id lib now bc id ≡ contains_valid_node_id lib now bd id))
  unfolding get_last_hash contains_valid_node_id
  same_hash_same_chain h k bc bd last l m r q e f =
      let tips : Option.map (hash lib) (first h) ≡ Option.map (hash lib) (first k) =
        rw (← l.same_last, ← m.same_last) (ground arith) in
      elim (same_newest h k l.linked m.linked r q tips) [
        | inr found ↦ inl found
        | inl same ↦
            let blocks : (id : ℕ) → block_of bc id ≡ block_of bd id =
              λ id. l.same_blocks id ∙ ap (λ x. latest x id) same ∙ sym (m.same_blocks id) in
            inr (same, blocks, λ now id. ground (arith, blocks id))
      ]
