-- ===== src/Network/Handled.antt =====
-- The chains that a handler of code/puzzleshandler.go sends.
use blockchain_sybil_attack.Base.{
  ℕ, ◌≡◌, refl, Bool, true, false, ◌&&◌, Option, none, some, List, Text, get, is_some, ◌==◌, nat_eq,
  text_eq, put, Outcome, ok, panic, arith, inl, inr, Bool-cases, Option-cases,
}
use blockchain_sybil_attack.Chain.Platform.{Platform, Time}
use blockchain_sybil_attack.Chain.Block.{Block}
use blockchain_sybil_attack.Chain.Ledger.{BlockChain, add_block, get_last_hash, next_node_id}
use blockchain_sybil_attack.Chain.Mining.{mine_block}
use blockchain_sybil_attack.Messages.{
  Address, empty_packet, PuzzleProposal, PuzzleResponse, BlockBroadcast, BlockChainMessage,
  IpMatchNodeId,
}
use blockchain_sybil_attack.Puzzles.{
  PuzzlesState, add_new_gossiper, send, broadcast_block, admit, try_admit, handle_joining,
  send_puzzle_proposal, handle_puzzle_proposal, proposed_job, answer_proposal,
  handle_puzzle_response, handle_block_chain, handle_block_broadcast,
}
use blockchain_sybil_attack.Puzzles.Admission.{admit-Admits}
use blockchain_sybil_attack.Puzzles.Steps.{Step, joining, proposal, response, chain, broadcast}
use blockchain_sybil_attack.Network.Sent.{
  Carries, send-Carries, add_new_gossiper-conn, admit-Carries, broadcast_block-Carries,
}

module _ (P : BlockChain → Type 0) (lib : Platform) (resolve : Text → Address)
    (ps ps' : PuzzlesState) where
  keep : ps'.conn ≡ ps.conn → Carries P ps.conn → Carries P ps'.conn
  keep same c = rw same c

  handle_joining-Carries :
      (clock : ℕ → ℕ) (now : Time) (joiner : Address)
      → handle_joining lib clock now ps joiner ≡ ok ps'
      → Carries P ps.conn
      → Carries P ps'.conn
  unfolding handle_joining send_puzzle_proposal
  handle_joining-Carries clock now joiner e c =
      elim (Bool-cases (is_some ps.local_chain.last_block && ps.joined)) [
        | inr away ↦ keep (ground arith) c
        | inl member ↦ elim (Option-cases (get ps.waiting joiner)) [
          | inr (pp, asked) ↦ keep (ground arith) c
          | inl new ↦
              proposed (next_node_id lib clock ps.local_chain) refl
                (get_last_hash lib ps.local_chain) refl member new
        ]
      ]
    where
      proposed :
          (r : Option ℕ)
          → next_node_id lib clock ps.local_chain ≡ r
          → (h : Outcome (List ℕ)) → get_last_hash lib ps.local_chain ≡ h
          → (is_some ps.local_chain.last_block && ps.joined) ≡ true
          → get ps.waiting joiner ≡ none
          → Carries P ps'.conn
      proposed none n h l member new = absurd (ground arith)
      proposed (some id) n (panic p) l member new = absurd (ground arith)
      proposed (some id) n (ok last) l member new =
          let pp : PuzzleProposal = record {
            origin = ps.my_name;
            node_id = id;
            timestamp = now;
            previous_hash = last;
          } in
          let waiting = record ps { waiting = put ps.waiting joiner pp } in
          let packet = record empty_packet { p_proposal = some pp } in
          let same : ps' ≡ send waiting packet joiner = ground arith in
          rw same (send-Carries P waiting packet joiner (λ d e. absurd (ground arith)) c)

  handle_puzzle_proposal-Carries :
      (fuel : ℕ) (clock : ℕ → ℕ) (pp : PuzzleProposal) (from : Address)
      → handle_puzzle_proposal lib resolve fuel clock ps pp from ≡ ok ps'
      → Carries P ps.conn
      → Carries P ps'.conn
  unfolding handle_puzzle_proposal answer_proposal
  handle_puzzle_proposal-Carries fuel clock pp from e c = elim (Bool-cases ps.joined) [
    | inl member ↦ keep (ground arith) c
    | inr outside ↦ elim (Option-cases (mine_block lib fuel clock (proposed_job lib ps pp))) [
      | inl slow ↦ absurd (ground arith)
      | inr (b, mined) ↦
          let named = record ps { my_id = pp.node_id } in
          let met = add_new_gossiper resolve named from pp.origin in
          let packet = record empty_packet {
            p_response =
                some (record { origin = ps.my_name; destination = pp.origin; created_block = b });
          } in
          let same : ps' ≡ send met packet from = ground arith in
          let before : Carries P met.conn =
            rw (add_new_gossiper-conn P resolve named from pp.origin) c in
          rw same (send-Carries P met packet from (λ d e. absurd (ground arith)) before)
    ]
  ]

  handle_puzzle_response-Carries :
      (now : ℕ) (pr : PuzzleResponse) (from : Address) (sent : List IpMatchNodeId)
      → handle_puzzle_response lib resolve now ps pr from ≡ ok (ps', sent)
      → ((now : ℕ) (b : Block)
          → add_block lib now ps.local_chain b ≡ ok (ps'.local_chain, true)
          → P ps'.local_chain)
      → Carries P ps.conn
      → Carries P ps'.conn
  unfolding handle_puzzle_response try_admit
  handle_puzzle_response-Carries now pr from sent e good c = waited (get ps.waiting from) refl
    where
      tried :
          (pp : PuzzleProposal) (b : Block) (r : Outcome (BlockChain × Bool))
          → get ps.waiting from ≡ some pp
          → pr.created_block ≡ some b
          → (pr.destination == ps.my_name) ≡ true
          → (b.node_id == pp.node_id && b.timestamp.instant == pp.timestamp.instant) ≡ true
          → add_block lib now ps.local_chain b ≡ r
          → Carries P ps'.conn
      tried pp b (panic p) w n d i a = absurd (ground arith)
      tried pp b (ok (extended, false)) w n d i a = keep (ground arith) c
      tried pp b (ok (extended, true)) w n d i a =
          let grown = record ps { local_chain = extended } in
          let same : ps' ≡ admit resolve grown pr b from = ground arith in
          let x = admit-Admits resolve grown pr b from in
          let taken : ps'.local_chain ≡ extended = rw same x.same_chain in
          let mine : P ps'.local_chain = good now b (rw taken a) in
          rw same (admit-Carries P resolve grown pr b from (rw (← same) mine) c)

      answered :
          (pp : PuzzleProposal) (o : Option Block)
          → get ps.waiting from ≡ some pp
          → pr.created_block ≡ o
          → (pr.destination == ps.my_name) ≡ true
          → Carries P ps'.conn
      answered pp none w n d = absurd (ground arith)
      answered pp (some b) w n d =
          elim (Bool-cases
            (b.node_id == pp.node_id && b.timestamp.instant == pp.timestamp.instant)) [
              | inr differs ↦ keep (ground arith) c
              | inl agrees ↦ tried pp b (add_block lib now ps.local_chain b) w n d agrees refl
            ]

      waited : (o : Option PuzzleProposal) → get ps.waiting from ≡ o → Carries P ps'.conn
      waited none w = keep (ground arith) c
      waited (some pp) w = elim (Bool-cases (pr.destination == ps.my_name)) [
        | inr other ↦ keep (ground arith) c
        | inl mine ↦ answered pp pr.created_block w refl mine
      ]

  handle_block_broadcast-Carries :
      (now : ℕ) (bb : BlockBroadcast) (from : Address)
      → handle_block_broadcast lib now ps bb from ≡ ok ps'
      → Carries P ps.conn
      → Carries P ps'.conn
  unfolding handle_block_broadcast
  handle_block_broadcast-Carries now bb from e c = received bb.new_block refl
    where
      tried :
          (b : Block) (r : Outcome (BlockChain × Bool))
          → bb.new_block ≡ some b
          → add_block lib now ps.local_chain b ≡ r
          → Carries P ps'.conn
      tried b (panic p) n a = absurd (ground arith)
      tried b (ok (extended, false)) n a = keep (ground arith) c
      tried b (ok (extended, true)) n a =
          let grown = record ps { local_chain = extended } in
          let same : ps' ≡ broadcast_block grown b from = ground arith in
          rw same (broadcast_block-Carries P grown b from c)

      received : (o : Option Block) → bb.new_block ≡ o → Carries P ps'.conn
      received none n = absurd (ground arith)
      received (some b) n = tried b (add_block lib now ps.local_chain b) n refl

  handle_block_chain-conn :
      (clock : ℕ → ℕ) (bcm : BlockChainMessage)
      → handle_block_chain lib clock ps bcm ≡ ok ps'
      → ps'.conn ≡ ps.conn
  unfolding handle_block_chain
  handle_block_chain-conn clock bcm e = ground arith

  -- A chain that a node sends is its own, to which it has just added a block.
  pub Step-Carries :
      Step lib resolve ps ps'
      → ((now : ℕ) (b : Block)
          → add_block lib now ps.local_chain b ≡ ok (ps'.local_chain, true)
          → P ps'.local_chain)
      → Carries P ps.conn
      → Carries P ps'.conn
  Step-Carries (joining clock now joiner e) good c = handle_joining-Carries clock now joiner e c
  Step-Carries (proposal fuel clock pp from e) good c =
      handle_puzzle_proposal-Carries fuel clock pp from e c
  Step-Carries (response now pr from sent e) good c =
      handle_puzzle_response-Carries now pr from sent e good c
  Step-Carries (chain clock bcm e) good c = rw (handle_block_chain-conn clock bcm e) c
  Step-Carries (broadcast now bb from e) good c = handle_block_broadcast-Carries now bb from e c
