-- ===== src/Puzzles/Faults.antt =====
-- Inputs on which the handlers of code/puzzleshandler.go panic or stop making progress.
use blockchain_sybil_attack.Base.{
  ℕ, ◌≡◌, ◌≢◌, refl, true, none, some, List, [], ◌∷◌, ◌++◌, Text, get, ==_iff, nat_eq, text_eq, ok,
  panic, arith, nil_dereference, nil_map_write,
}
use blockchain_sybil_attack.Chain.Platform.{Platform, Time}
use blockchain_sybil_attack.Chain.Block.{Block, hash, is_valid}
use blockchain_sybil_attack.Chain.Ledger.{no_chain, add_block, matches_last, store_block}
use blockchain_sybil_attack.Messages.{
  Address, PuzzleProposal, PuzzleResponse, Datagram, IpMatchNodeId,
}
use blockchain_sybil_attack.Puzzles.{
  PuzzlesState, send, answer_proposal, try_admit, handle_joining, handle_puzzle_response,
  handle_block_broadcast,
}

-- A node that has no chain yet panics on a broadcast of any valid block: `addBlock` accepts it and
-- writes to the nil map.
pub broadcast_before_join_panics :
    (lib : Platform) (now : ℕ) (ps : PuzzlesState) (origin : Text) (b : Block) (from : Address)
    → ps.local_chain ≡ no_chain
    → is_valid lib now b ≡ true
    → handle_block_broadcast lib now ps (record { origin = origin; new_block = some b }) from
      ≡ panic nil_map_write
unfolding handle_block_broadcast add_block matches_last store_block
broadcast_before_join_panics lib now ps origin b from none_yet valid = ground arith

-- The response that `handlePuzzleProposal` sends when mining has given up holds no block, and a
-- node that waits for that joiner panics on it.
pub given_up_panics :
    (lib : Platform) (resolve : Text → Address) (now : ℕ) (joiner asked : PuzzlesState)
    (pp outstanding : PuzzleProposal) (from sponsor : Address)
    → get asked.waiting from ≡ some outstanding
    → pp.origin ≡ asked.my_name
    → (earlier : List Datagram) × (d : Datagram) × (pr : PuzzleResponse) × ((answer_proposal resolve
          joiner pp sponsor none).conn
        ≡ earlier ++ d ∷ [])
      × (d.dest ≡ sponsor)
      × (d.packet.p_response ≡ some pr)
      × (handle_puzzle_response lib resolve now asked pr from ≡ panic nil_dereference)
unfolding answer_proposal send handle_puzzle_response try_admit
given_up_panics lib resolve now joiner asked pp outstanding from sponsor waits named = (
  _,
  _,
  record { origin = joiner.my_name; destination = pp.origin; created_block = none },
  refl,
  refl,
  refl,
  ground (arith, ==_iff pp.origin asked.my_name),
)

module _ (lib : Platform) (resolve : Text → Address) (pp : PuzzleProposal) (from : Address)
    (ps : PuzzlesState) where
  -- What comes from one address: it tries to join, or sends a block that names the hash that its
  -- proposal named.
  pub data Tries : PuzzlesState → Type 0 where
    begin : Tries ps
    approach :
        {t u : PuzzlesState} (clock : ℕ → ℕ) (time : Time)
        → Tries t
        → handle_joining lib clock time t from ≡ ok u
        → Tries u
    respond :
        {t u : PuzzlesState} (now : ℕ) (pr : PuzzleResponse) (b : Block) (news : List IpMatchNodeId)
        → Tries t
        → pr.created_block ≡ some b
        → b.previous_hash ≡ pp.previous_hash
        → handle_puzzle_response lib resolve now t pr from ≡ ok (u, news)
        → Tries u

  -- While a proposal is outstanding whose previous hash is not that of the last block, nothing that its
  -- address tries changes the node, in any number of attempts to join and of responses with a block
  -- that names the previous hash of the proposal: no such block is accepted, and no other proposal is
  -- sent.
  pub stale_proposal_blocks :
      (l : Block) (t : PuzzlesState)
      → get ps.waiting from ≡ some pp
      → ps.local_chain.last_block ≡ some l
      → hash lib l ≢ pp.previous_hash
      → Tries t
      → t ≡ ps
  unfolding handle_puzzle_response try_admit handle_joining add_block matches_last
  stale_proposal_blocks l t waits last moved begin = refl
  stale_proposal_blocks l t waits last moved (approach {t = s} clock time tries e) =
      let same = stale_proposal_blocks l s waits last moved tries in
      let e' = rw same at e in ground arith
  stale_proposal_blocks l t waits last moved (respond {t = s} now pr b news tries created link e) =
      let same = stale_proposal_blocks l s waits last moved tries in
      let e' = rw same at e in ground (arith, ==_iff b.previous_hash (hash lib l))
