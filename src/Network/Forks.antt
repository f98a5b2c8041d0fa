-- ===== src/Network/Forks.antt =====
-- Nodes of code/puzzleshandler.go whose chains have forked.
use blockchain_sybil_attack.Base.{
  ℕ, ◌≡◌, ◌≢◌, refl, sym, ap, ◌∙◌, true, false, List, [], ◌∷◌, ◌++◌, Text, ok, arith, inl, inr, ◌⊎◌,
  Bool-cases, length, length-append, ==_iff, text_eq,
}
use blockchain_sybil_attack.Chain.Platform.{Platform}
use blockchain_sybil_attack.Chain.Block.{Block, hash}
use blockchain_sybil_attack.Chain.Ledger.{BlockChain, add_block, matches_last}
use blockchain_sybil_attack.Chain.Ledger.Shape.{accepted, refused, add_block-Added}
use blockchain_sybil_attack.Chain.Ledger.History.{IsLedger}
use blockchain_sybil_attack.Chain.Ledger.Agreement.{Rooted, Collides, same_tip}
use blockchain_sybil_attack.Messages.{Address}
use blockchain_sybil_attack.Puzzles.{PuzzlesState}
use blockchain_sybil_attack.Puzzles.Steps.{Steps, Extends, Steps-Extends}

-- Lists that end with different elements over the same list differ.
ends_differ : (n m h : List Block) (x y : Block) → x ≢ y → n ++ x ∷ h ≢ m ++ y ∷ h
ends_differ [] [] h x y other e = other (cc e)
ends_differ [] (b ∷ m) h x y other e =
    absurd (omega (arith, ap length e, length-append {0} m (y ∷ h)))
ends_differ (b ∷ n) [] h x y other e =
    absurd (omega (arith, ap length e, length-append {0} n (x ∷ h)))
ends_differ (b ∷ n) (c ∷ m) h x y other e = ends_differ n m h x y other (cc e)

append_ne_nil : (n h : List Block) (x : Block) → n ++ x ∷ h ≢ []
append_ne_nil [] h x e = cc
append_ne_nil (b ∷ n) h x e = cc

Rooted-append : (n h : List Block) (z : Block) → Rooted (z ∷ h) → Rooted (n ++ z ∷ h)
Rooted-append [] h z r = r
Rooted-append (b ∷ []) h z r = r
Rooted-append (b ∷ c ∷ n) h z r = Rooted-append (c ∷ n) h z r

module _ (lib : Platform) (now t : ℕ) (b : Block) where
  -- A block that one chain accepts is refused by a chain whose ledger differs, but for a collision.
  accepted_once :
      (u v : List Block) (bc bc' bd : BlockChain)
      → IsLedger lib u bc
      → IsLedger lib v bd
      → Rooted u
      → Rooted v
      → u ≢ v
      → u ≢ []
      → v ≢ []
      → add_block lib now bc b ≡ ok (bc', true)
      → (add_block lib t bd b ≡ ok (bd, false)) ⊎ Collides lib u v
  accepted_once [] v bc bc' bd l m r q differ some_u some_v e = absurd (some_u refl)
  accepted_once (x ∷ u) [] bc bc' bd l m r q differ some_u some_v e = absurd (some_v refl)
  accepted_once (x ∷ u) (y ∷ v) bc bc' bd l m r q differ some_u some_v e =
      elim (add_block-Added lib now bc b e) [
        | refused bad not_added same ↦ absurd (ground arith)
        | accepted z here valid match yes_added same ↦
            let named : b.previous_hash ≡ hash lib x =
              unfold matches_last in ground (arith, ==_iff b.previous_hash (hash lib x)) in
            elim (Bool-cases (matches_last lib bd b)) [
              | inr no_match ↦ inl (unfold add_block in rw no_match (ground arith))
              | inl also ↦
                  let also_named : b.previous_hash ≡ hash lib y =
                    unfold matches_last in ground (arith, ==_iff b.previous_hash (hash lib y)) in
                  elim (same_tip lib u v x y l.linked m.linked r q (sym named ∙ also_named)) [
                    | inl same ↦ absurd (differ same)
                    | inr found ↦ inr found
                  ]
            ]
      ]

module _ (lib : Platform) (resolve : Text → Address) (z x y : Block) (h : List Block)
    (ps qs ps' qs' : PuzzlesState) where
  -- Two members whose ledgers agree but for their newest blocks do not come together again while
  -- neither joining expires: whatever messages they have handled since without a panic, and with no
  -- call of expireJoining, a block that one of them accepts is refused by the other at any reading of
  -- the clock, unless two different blocks of their ledgers have the same hash; provided that the
  -- oldest block that they share names no hash.
  pub forked_for_good :
      (now t : ℕ) (b : Block) (bc : BlockChain)
      → x ≢ y
      → Rooted (z ∷ h)
      → Extends lib (x ∷ z ∷ h) ps
      → Extends lib (y ∷ z ∷ h) qs
      → Steps lib resolve ps ps'
      → Steps lib resolve qs qs'
      → add_block lib now ps'.local_chain b ≡ ok (bc, true)
      → (u v : List Block) × IsLedger lib u ps'.local_chain
        × IsLedger lib v qs'.local_chain
        × ((add_block lib t qs'.local_chain b ≡ ok (qs'.local_chain, false)) ⊎ Collides lib u v)
  forked_for_good now t b bc other r e f steps steps' added =
      let p = Steps-Extends lib resolve (x ∷ z ∷ h) ps ps' steps e in
      let q = Steps-Extends lib resolve (y ∷ z ∷ h) qs qs' steps' f in
      let u = p.newer ++ x ∷ z ∷ h in
      let v = q.newer ++ y ∷ z ∷ h in
      (
        u,
        v,
        p.ledger,
        q.ledger,
        accepted_once lib now t b u v ps'.local_chain bc qs'.local_chain p.ledger q.ledger
            (Rooted-append p.newer (z ∷ h) x r) (Rooted-append q.newer (z ∷ h) y r)
            (ends_differ p.newer q.newer (z ∷ h) x y other) (append_ne_nil p.newer (z ∷ h) x)
            (append_ne_nil q.newer (z ∷ h) y) added,
      )
