-- ===== src/Network/Shared.antt =====
-- In a network of nodes of code/puzzleshandler.go all chains stem from one genesis block.
use blockchain_sybil_attack.Base.{
  ℕ, ◌≡◌, refl, ◌∙◌, Bool, true, false, ◌&&◌, some, List, [], ◌∷◌, ◌++◌, Text, ok, arith, inl, inr,
  Bool-cases, All, ◌==◌, nat_eq,
}
use blockchain_sybil_attack.Chain.Platform.{Platform}
use blockchain_sybil_attack.Chain.Block.{Block, is_valid}
use blockchain_sybil_attack.Chain.Ledger.{BlockChain, no_chain, add_block}
use blockchain_sybil_attack.Chain.Ledger.Shape.{accepted, refused, add_block-Added}
use blockchain_sybil_attack.Chain.Ledger.History.{IsLedger, links, add_block-IsLedger}
use blockchain_sybil_attack.Messages.{Address, BlockChainMessage, Datagram}
use blockchain_sybil_attack.Puzzles.{PuzzlesState, expire_joining}
use blockchain_sybil_attack.Puzzles.Steps.{Step, joining, proposal, response, chain, broadcast}
use blockchain_sybil_attack.Network.{
  System, update, In, WasSent, Delivered, Move, handle, expire, Reach, start, later,
}
use blockchain_sybil_attack.Network.Effects.{Effect, Offers, kept, offered, replaced, Step-Effect}
use blockchain_sybil_attack.Network.Sent.{ChainOf, Carries}
use blockchain_sybil_attack.Network.Handled.{Step-Carries}

-- The chain is a ledger that starts with the block `g`, and each later block of it was valid at some
-- reading of the clock.
pub record Descends (lib : Platform) (g : Block) (bc : BlockChain) : Type 0 where
  pub newer : List Block
  pub ledger : IsLedger lib (newer ++ g ∷ []) bc
  pub worked : All (λ b. (t : ℕ) × (is_valid lib t b ≡ true)) newer

-- A node has no chain and has not joined, or has a chain that stems from `g`.
pub data Standing (lib : Platform) (g : Block) (ps : PuzzlesState) : Type 0 where
  outside : ps.joined ≡ false → ps.local_chain ≡ no_chain → Standing lib g ps
  inside : Descends lib g ps.local_chain → Standing lib g ps

-- The nodes stand so, and all chains that they have sent stem from `g`.
pub record Shared (lib : Platform) (g : Block) (s : System) : Type 0 where
  pub nodes : (i : ℕ) → Standing lib g (s i)
  pub chains : (i : ℕ) → Carries (Descends lib g) (s i).conn

module _ (lib : Platform) (g : Block) where
  -- Without a chain `addBlock` returns only when it refuses.
  refused_outside :
      (now : ℕ) (b : Block) (bc : BlockChain) (added : Bool)
      → add_block lib now no_chain b ≡ ok (bc, added)
      → bc ≡ no_chain
  refused_outside now b bc added e = elim (add_block-Added lib now no_chain b e) [
    | accepted m here valid match yes_added same ↦ absurd (ground arith)
    | refused bad not_added same ↦ same
  ]

  Descends-add_block :
      (now : ℕ) (b : Block) (bc bd : BlockChain) (added : Bool)
      → add_block lib now bc b ≡ ok (bd, added)
      → Descends lib g bc
      → Descends lib g bd
  Descends-add_block now b bc bd added e x =
      let h = x.newer ++ g ∷ [] in
      let grown = add_block-IsLedger lib now h bc b x.ledger e in
      elim (Bool-cases (is_valid lib now b && links lib h b)) [
        | inl good ↦ record {
          newer = b ∷ x.newer;
          ledger = rw good at grown;
          worked = ((now, ground arith), x.worked);
        }
        | inr bad ↦ record { newer = x.newer; ledger = rw bad at grown; worked = x.worked }
      ]

  Effect-Standing :
      (ps ps' : PuzzlesState)
      → Effect lib (Descends lib g) ps ps'
      → Standing lib g ps
      → Standing lib g ps'
  Effect-Standing ps ps' (kept j e) (outside o n) = outside (j ∙ o) (e ∙ n)
  Effect-Standing ps ps' (kept j e) (inside x) = inside (rw e x)
  Effect-Standing ps ps' (offered now b added j e) (outside o n) =
      outside (j ∙ o) (refused_outside now b ps'.local_chain added (rw n at e))
  Effect-Standing ps ps' (offered now b added j e) (inside x) =
      inside (Descends-add_block now b ps.local_chain ps'.local_chain added e x)
  Effect-Standing ps ps' (replaced o j x) y = inside x

  -- A chain that a node has sent stems from `g`.
  In-Carries :
      (d : Datagram) (ds : List Datagram)
      → Carries (Descends lib g) ds
      → In d ds
      → ChainOf (Descends lib g) d.packet
  In-Carries d [] c sent = elim sent [ ]
  In-Carries d (e ∷ ds) (c, cs) (inl here) = rw (← here) c
  In-Carries d (e ∷ ds) (c, cs) (inr there) = In-Carries d ds cs there

  WasSent-Descends :
      (s : System) (bcm : BlockChainMessage)
      → Shared lib g s
      → WasSent s bcm
      → (c : BlockChain) → bcm.chain ≡ some c
      → Descends lib g c
  WasSent-Descends s bcm x (j, d, sent, carried) c here =
      In-Carries d (s j).conn (x.chains j) sent c (ground arith)

  Delivered-Offers :
      (resolve : Text → Address) (s : System) (ps ps' : PuzzlesState) (st : Step lib resolve ps ps')
      → Shared lib g s
      → Delivered s st
      → Offers (Descends lib g) st
  Delivered-Offers resolve s ps ps' (chain clock bcm e) x d = WasSent-Descends s bcm x d
  Delivered-Offers resolve s ps ps' (joining clock now joiner e) x d = tt
  Delivered-Offers resolve s ps ps' (proposal fuel clock pp from e) x d = tt
  Delivered-Offers resolve s ps ps' (response now pr from sent e) x d = tt
  Delivered-Offers resolve s ps ps' (broadcast now bb from e) x d = tt

  update_all :
      (P : PuzzlesState → Type 0) (s : System) (i : ℕ) (ps : PuzzlesState)
      → ((j : ℕ) → P (s j))
      → P ps
      → (j : ℕ) → P (update s i ps j)
  update_all P s i ps all here j = elim (Bool-cases (i == j)) [
    | inl same ↦ rw same here
    | inr other ↦ rw other (all j)
  ]

  -- A node that adds a block to its chain has a chain that stems from `g`.
  grown-Descends :
      (ps ps' : PuzzlesState) (now : ℕ) (b : Block)
      → Standing lib g ps
      → add_block lib now ps.local_chain b ≡ ok (ps'.local_chain, true)
      → Descends lib g ps'.local_chain
  grown-Descends ps ps' now b (inside x) e =
      Descends-add_block now b ps.local_chain ps'.local_chain true e x
  grown-Descends ps ps' now b (outside o n) e =
      elim (add_block-Added lib now no_chain b (rw n at e)) [
        | accepted m here valid match yes_added same ↦ absurd (ground arith)
        | refused bad not_added same ↦ absurd (ground arith)
      ]

  expired-Standing : (ps : PuzzlesState) → Standing lib g ps → Standing lib g (expire_joining ps)
  unfolding expire_joining
  expired-Standing ps (outside o n) = outside refl n
  expired-Standing ps (inside x) = inside x

  Move-Shared :
      (resolve : Text → Address) (s t : System)
      → Move lib resolve s t
      → Shared lib g s
      → Shared lib g t
  unfolding expire_joining
  Move-Shared resolve s t (handle i ps' st d) x =
      let offers = Delivered-Offers resolve s (s i) ps' st x d in
      let effect = Step-Effect lib resolve (Descends lib g) (s i) ps' st offers in
      let stands = Effect-Standing (s i) ps' effect (x.nodes i) in
      let carries =
        Step-Carries (Descends lib g) lib resolve (s i) ps' st
          (λ now b e. grown-Descends (s i) ps' now b (x.nodes i) e) (x.chains i) in
      record {
        nodes = update_all (Standing lib g) s i ps' x.nodes stands;
        chains = update_all (λ ps. Carries (Descends lib g) ps.conn) s i ps' x.chains carries;
      }
  Move-Shared resolve s t (expire i) x =
      let ps' = expire_joining (s i) in
      record {
        nodes = update_all (Standing lib g) s i ps' x.nodes (expired-Standing (s i) (x.nodes i));
        chains = update_all (λ ps. Carries (Descends lib g) ps.conn) s i ps' x.chains (x.chains i);
      }

  -- Start a network of nodes that have sent nothing, each without a chain or with one that stems from
  -- one genesis block; then whatever messages its nodes handle, in whatever order and also if they
  -- are forged, but for the chains, which must have been sent by a node, and whatever timers expire,
  -- as long as no handler panics: each node has no chain and has not joined, or its chain is a ledger that starts with the
  -- genesis block, each block linked to the one before it and valid at some reading of the clock.
  pub Reach-Shared :
      (resolve : Text → Address) (s t : System)
      → Shared lib g s
      → Reach lib resolve s t
      → Shared lib g t
  Reach-Shared resolve s t x start = x
  Reach-Shared resolve s t x (later {t = u} before last) =
      Move-Shared resolve u t last (Reach-Shared resolve s u x before)
