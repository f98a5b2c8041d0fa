-- ===== src/Puzzles/Steps.antt =====
-- The handlers of code/puzzleshandler.go as the steps of one node, and what they keep.
use blockchain_sybil_attack.Base.{
  ℕ, ◌≡◌, refl, Bool, true, false, ◌&&◌, Option, none, some, List, ◌∷◌, ◌++◌, Text, Outcome, ok,
  panic, arith, inl, inr, Bool-cases, ◌∙◌, All,
}
use blockchain_sybil_attack.Chain.Platform.{Platform, Time}
use blockchain_sybil_attack.Chain.Block.{Block, is_valid}
use blockchain_sybil_attack.Chain.Ledger.{BlockChain, add_block, get_last_hash}
use blockchain_sybil_attack.Chain.Ledger.History.{IsLedger, links, add_block-IsLedger}
use blockchain_sybil_attack.Messages.{
  Address, PuzzleProposal, PuzzleResponse, BlockBroadcast, BlockChainMessage, IpMatchNodeId,
}
use blockchain_sybil_attack.Puzzles.{
  PuzzlesState, send, send_puzzle_proposal, handle_joining, handle_puzzle_proposal,
  handle_puzzle_response, handle_block_chain, handle_block_broadcast, broadcast_block,
}
use blockchain_sybil_attack.Puzzles.Admission.{
  broadcast_block-SameCore, ignored, admitted, handle_puzzle_response-Response,
}

-- One handler call that returns, on any input and at any reading of the clock.
pub data Step (lib : Platform) (resolve : Text → Address) (ps ps' : PuzzlesState) : Type 0 where
  joining :
      (clock : ℕ → ℕ) (now : Time) (joiner : Address)
      → handle_joining lib clock now ps joiner ≡ ok ps'
      → Step lib resolve ps ps'
  proposal :
      (fuel : ℕ) (clock : ℕ → ℕ) (pp : PuzzleProposal) (from : Address)
      → handle_puzzle_proposal lib resolve fuel clock ps pp from ≡ ok ps'
      → Step lib resolve ps ps'
  response :
      (now : ℕ) (pr : PuzzleResponse) (from : Address) (sent : List IpMatchNodeId)
      → handle_puzzle_response lib resolve now ps pr from ≡ ok (ps', sent)
      → Step lib resolve ps ps'
  chain :
      (clock : ℕ → ℕ) (bcm : BlockChainMessage)
      → handle_block_chain lib clock ps bcm ≡ ok ps'
      → Step lib resolve ps ps'
  broadcast :
      (now : ℕ) (bb : BlockBroadcast) (from : Address)
      → handle_block_broadcast lib now ps bb from ≡ ok ps'
      → Step lib resolve ps ps'

pub data Steps (lib : Platform) (resolve : Text → Address) (ps : PuzzlesState)
    : PuzzlesState → Type 0 where
  here : Steps lib resolve ps ps
  next :
      {qs rs : PuzzlesState}
      → Steps lib resolve ps qs
      → Step lib resolve qs rs
      → Steps lib resolve ps rs

-- The node has joined, and its chain is a ledger that ends with `h`; what is newer was valid at
-- some reading of the clock.
pub record Extends (lib : Platform) (h : List Block) (ps : PuzzlesState) : Type 0 where
  pub joined : ps.joined ≡ true
  pub newer : List Block
  pub ledger : IsLedger lib (newer ++ h) ps.local_chain
  pub worked : All (λ b. (t : ℕ) × (is_valid lib t b ≡ true)) newer

module _ (lib : Platform) (h : List Block) where
  Extends-same :
      (ps ps' : PuzzlesState)
      → ps'.joined ≡ ps.joined
      → ps'.local_chain ≡ ps.local_chain
      → Extends lib h ps
      → Extends lib h ps'
  Extends-same ps ps' j c e = record {
    joined = j ∙ e.joined;
    newer = e.newer;
    ledger = rw c e.ledger;
    worked = e.worked;
  }

  Extends-add_block :
      (ps ps' : PuzzlesState) (now : ℕ) (b : Block) (added : Bool)
      → ps'.joined ≡ ps.joined
      → add_block lib now ps.local_chain b ≡ ok (ps'.local_chain, added)
      → Extends lib h ps
      → Extends lib h ps'
  Extends-add_block ps ps' now b added j e x =
      let grown = add_block-IsLedger lib now (x.newer ++ h) ps.local_chain b x.ledger e in
      elim (Bool-cases (is_valid lib now b && links lib (x.newer ++ h) b)) [
        | inl yes_added ↦ record {
          joined = j ∙ x.joined;
          newer = b ∷ x.newer;
          ledger = rw yes_added at grown;
          worked = ((now, ground arith), x.worked);
        }
        | inr not_added ↦ record {
          joined = j ∙ x.joined;
          newer = x.newer;
          ledger = rw not_added at grown;
          worked = x.worked;
        }
      ]

module _ (lib : Platform) (ps ps' : PuzzlesState) where
  pub handle_joining-same :
      (clock : ℕ → ℕ) (now : Time) (joiner : Address)
      → handle_joining lib clock now ps joiner ≡ ok ps'
      → (ps'.joined ≡ ps.joined) × (ps'.local_chain ≡ ps.local_chain)
  unfolding handle_joining send_puzzle_proposal get_last_hash send
  handle_joining-same clock now joiner e = ground arith

  handle_puzzle_proposal-same :
      (resolve : Text → Address) (fuel : ℕ) (clock : ℕ → ℕ) (pp : PuzzleProposal) (from : Address)
      → ps.joined ≡ true
      → handle_puzzle_proposal lib resolve fuel clock ps pp from ≡ ok ps'
      → ps' ≡ ps
  unfolding handle_puzzle_proposal
  handle_puzzle_proposal-same resolve fuel clock pp from j e = ground arith

  handle_block_chain-same :
      (clock : ℕ → ℕ) (bcm : BlockChainMessage)
      → ps.joined ≡ true
      → handle_block_chain lib clock ps bcm ≡ ok ps'
      → ps' ≡ ps
  unfolding handle_block_chain
  handle_block_chain-same clock bcm j e = ground arith

  pub handle_block_broadcast-adds :
      (now : ℕ) (bb : BlockBroadcast) (from : Address)
      → handle_block_broadcast lib now ps bb from ≡ ok ps'
      → (b : Block) × (added : Bool) × (ps'.joined ≡ ps.joined)
        × (add_block lib now ps.local_chain b ≡ ok (ps'.local_chain, added))
  handle_block_broadcast-adds now bb from e = received bb.new_block refl
    where
      tried :
          (b : Block) (r : Outcome (BlockChain × Bool))
          → bb.new_block ≡ some b
          → add_block lib now ps.local_chain b ≡ r
          → (b : Block) × (added : Bool) × (ps'.joined ≡ ps.joined)
            × (add_block lib now ps.local_chain b ≡ ok (ps'.local_chain, added))
      tried b (panic p) n a = absurd (unfold handle_block_broadcast in ground arith)
      tried b (ok (c, false)) n a = (
        b,
        false,
        unfold handle_block_broadcast in ground arith,
        unfold handle_block_broadcast in ground arith,
      )
      tried b (ok (c, true)) n a =
          let grown = record ps { local_chain = c } in
          let x = broadcast_block-SameCore grown b from in
          let same : ps' ≡ broadcast_block grown b from =
            unfold handle_block_broadcast in ground arith in
          (b, true, rw same x.same_joined, rw (same, x.same_chain) a)

      received :
          (o : Option Block)
          → bb.new_block ≡ o
          → (b : Block) × (added : Bool) × (ps'.joined ≡ ps.joined)
            × (add_block lib now ps.local_chain b ≡ ok (ps'.local_chain, added))
      received none n = absurd (unfold handle_block_broadcast in ground arith)
      received (some b) n = tried b (add_block lib now ps.local_chain b) n refl

module _ (lib : Platform) (resolve : Text → Address) (h : List Block) where
  Step-Extends :
      (ps ps' : PuzzlesState) → Step lib resolve ps ps' → Extends lib h ps → Extends lib h ps'
  Step-Extends ps ps' (joining clock now joiner e) x =
      let s = handle_joining-same lib ps ps' clock now joiner e in
      Extends-same lib h ps ps' s.0 s.1 x
  Step-Extends ps ps' (proposal fuel clock pp from e) x =
      rw (handle_puzzle_proposal-same lib ps ps' resolve fuel clock pp from x.joined e) x
  Step-Extends ps ps' (chain clock bcm e) x =
      rw (handle_block_chain-same lib ps ps' clock bcm x.joined e) x
  Step-Extends ps ps' (response now pr from sent e) x =
      elim (handle_puzzle_response-Response lib resolve now ps pr from e) [
        | ignored same _ ↦ rw same x
        | admitted pp b w d c i t a f j s ↦ Extends-add_block lib h ps ps' now b true j a x
      ]
  Step-Extends ps ps' (broadcast now bb from e) x =
      let (b, added, j, a) = handle_block_broadcast-adds lib ps ps' now bb from e in
      Extends-add_block lib h ps ps' now b added j a x

  -- Whatever sequence of messages a node that has joined handles, if none of the handlers panics
  -- then the node stays joined and its chain stays a ledger: blocks are only added to it, each
  -- linked to the one before and valid at some reading of the clock.
  pub Steps-Extends :
      (ps ps' : PuzzlesState) → Steps lib resolve ps ps' → Extends lib h ps → Extends lib h ps'
  Steps-Extends ps ps' here x = x
  Steps-Extends ps ps' (next {qs = qs} before last) x =
      Step-Extends qs ps' last (Steps-Extends ps qs before x)
