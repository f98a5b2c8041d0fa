-- ===== src/Network/Effects.antt =====
-- What one handler of code/puzzleshandler.go does to the chain of a node, joined or not.
use blockchain_sybil_attack.Base.{
  ℕ, ◌≡◌, Bool, true, false, some, Text, ok, arith, inl, inr, Bool-cases, Option-cases,
}
use blockchain_sybil_attack.Chain.Platform.{Platform}
use blockchain_sybil_attack.Chain.Block.{Block}
use blockchain_sybil_attack.Chain.Ledger.{BlockChain, add_block}
use blockchain_sybil_attack.Messages.{Address, PuzzleProposal, BlockChainMessage}
use blockchain_sybil_attack.Puzzles.{
  PuzzlesState, handle_puzzle_proposal, handle_block_chain, answer_proposal, add_new_gossiper, send,
}
use blockchain_sybil_attack.Puzzles.Admission.{ignored, admitted, handle_puzzle_response-Response}
use blockchain_sybil_attack.Puzzles.Steps.{
  Step, joining, proposal, response, chain, broadcast, handle_joining-same,
  handle_block_broadcast-adds,
}

-- A chain that the step is sent has the property.
abbrev pub Offers :
    {lib : Platform} {resolve : Text → Address} {ps ps' : PuzzlesState} (P : BlockChain → Type 0)
    → Step lib resolve ps ps'
    → Type 0
Offers P (chain clock bcm e) = (c : BlockChain) → bcm.chain ≡ some c → P c
Offers P (joining clock now joiner e) = Unit
Offers P (proposal fuel clock pp from e) = Unit
Offers P (response now pr from sent e) = Unit
Offers P (broadcast now bb from e) = Unit

-- The chain stays, or a block is offered to it, or a chain with the property takes its place.
pub data Effect (lib : Platform) (P : BlockChain → Type 0) (ps ps' : PuzzlesState) : Type 0 where
  kept : ps'.joined ≡ ps.joined → ps'.local_chain ≡ ps.local_chain → Effect lib P ps ps'
  offered :
      (now : ℕ) (b : Block) (added : Bool)
      → ps'.joined ≡ ps.joined
      → add_block lib now ps.local_chain b ≡ ok (ps'.local_chain, added)
      → Effect lib P ps ps'
  replaced : ps.joined ≡ false → ps'.joined ≡ true → P ps'.local_chain → Effect lib P ps ps'

module _ (lib : Platform) (resolve : Text → Address) (P : BlockChain → Type 0)
    (ps ps' : PuzzlesState) where
  handle_puzzle_proposal-keeps :
      (fuel : ℕ) (clock : ℕ → ℕ) (pp : PuzzleProposal) (from : Address)
      → handle_puzzle_proposal lib resolve fuel clock ps pp from ≡ ok ps'
      → (ps'.joined ≡ ps.joined) × (ps'.local_chain ≡ ps.local_chain)
  unfolding handle_puzzle_proposal answer_proposal add_new_gossiper send
  handle_puzzle_proposal-keeps fuel clock pp from e = ground arith

  handle_block_chain-Effect :
      (clock : ℕ → ℕ) (bcm : BlockChainMessage)
      → handle_block_chain lib clock ps bcm ≡ ok ps'
      → ((c : BlockChain) → bcm.chain ≡ some c → P c)
      → Effect lib P ps ps'
  unfolding handle_block_chain
  handle_block_chain-Effect clock bcm e good = elim (Bool-cases ps.joined) [
    | inl member ↦ kept (ground arith) (ground arith)
    | inr outside ↦ elim (Option-cases bcm.chain) [
      | inl nothing ↦ absurd (ground arith)
      | inr (c, here) ↦
          (let taken : ps'.local_chain ≡ c = ground arith in
            replaced outside (ground arith) (rw taken (good c here)))
    ]
  ]

  pub Step-Effect : (st : Step lib resolve ps ps') → Offers P st → Effect lib P ps ps'
  Step-Effect (joining clock now joiner e) o =
      let s = handle_joining-same lib ps ps' clock now joiner e in kept s.0 s.1
  Step-Effect (proposal fuel clock pp from e) o =
      let s = handle_puzzle_proposal-keeps fuel clock pp from e in kept s.0 s.1
  Step-Effect (chain clock bcm e) o = handle_block_chain-Effect clock bcm e o
  Step-Effect (response now pr from sent e) o =
      elim (handle_puzzle_response-Response lib resolve now ps pr from e) [
        | ignored same _ ↦ kept (ground arith) (ground arith)
        | admitted pp b w d c i t a f j s ↦ offered now b true j a
      ]
  Step-Effect (broadcast now bb from e) o =
      let (b, added, j, a) = handle_block_broadcast-adds lib ps ps' now bb from e in
      offered now b added j a
