-- ===== src/Puzzles/Joining.antt =====
-- The join protocol of code/puzzleshandler.go from end to end, on the side of the node that is
-- asked: `handleJoining` sends a proposal, and the block mined for it is admitted.
use blockchain_sybil_attack.Base.{
  ℕ, ◌≡◌, ◌↔◌, refl, ap, ◌∙◌, true, false, ◌&&◌, none, some, List, [], ◌∷◌, ◌++◌, Text, get, put,
  delete, get-put, get-delete, ==_iff, ==_refl, nat_eq, text_eq, ok, arith,
}
use blockchain_sybil_attack.Chain.Platform.{Platform, Time}
use blockchain_sybil_attack.Chain.Block.{Block, hash, is_valid}
use blockchain_sybil_attack.Chain.Ledger.{
  BlockChain, add_block, matches_last, get_last_hash, next_node_id,
}
use blockchain_sybil_attack.Chain.Ledger.History.{
  IsLedger, append, links, add_block-IsLedger, add_block-accepts,
}
use blockchain_sybil_attack.Chain.Ledger.Integrity.{AllValid, check_integrity_iff}
use blockchain_sybil_attack.Messages.{
  Address, PuzzleProposal, PuzzleResponse, empty_packet, Datagram,
}
use blockchain_sybil_attack.Puzzles.{
  PuzzlesState, add_new_gossiper, send, broadcast_block, send_block_chain, admit, try_admit,
  send_puzzle_proposal, handle_joining, handle_puzzle_response, handle_block_chain,
}
use blockchain_sybil_attack.Puzzles.Admission.{admit-Admits}

module _ (lib : Platform) (clock : ℕ → ℕ) (now : Time) (ps : PuzzlesState) (joiner : Address)
    (l : Block) (last : ps.local_chain.last_block ≡ some l) where
  -- The proposal that a joiner is sent: the least free identifier and the hash of the last block.
  unfoldable pub proposal : ℕ → PuzzleProposal
  proposal id = record {
    origin = ps.my_name;
    node_id = id;
    timestamp = now;
    previous_hash = hash lib l;
  }

  unfoldable pub proposed : ℕ → PuzzlesState
  unfolding proposal
  proposed id =
      send (record ps { waiting = put ps.waiting joiner (proposal id) })
        (record empty_packet { p_proposal = some (proposal id) }) joiner

  pub handle_joining-proposed :
      (id : ℕ)
      → ps.joined ≡ true
      → get ps.waiting joiner ≡ none
      → next_node_id lib clock ps.local_chain ≡ some id
      → handle_joining lib clock now ps joiner ≡ ok (proposed id)
  unfolding handle_joining send_puzzle_proposal get_last_hash proposed
  handle_joining-proposed id joined new next = ground arith

  get-proposed : (id : ℕ) → get (proposed id).waiting joiner ≡ some (proposal id)
  unfolding proposed send
  get-proposed id = rw (get-put, ==_refl)

-- The chain message that `sendBlockChain` writes last.
abbrev pub EndsWithChain : PuzzlesState → Address → Type 0
EndsWithChain ps dest =
    (earlier : List Datagram) × (d : Datagram) × (ps.conn ≡ earlier ++ d ∷ [])
    × (d.dest ≡ dest)
    × (d.packet.b_chain ≡ some (record { chain = some ps.local_chain }))

admit-EndsWithChain :
    (resolve : Text → Address) (ps : PuzzlesState) (pr : PuzzleResponse) (b : Block)
    (from : Address)
    → EndsWithChain (admit resolve ps pr b from) from
unfolding admit send_block_chain send
admit-EndsWithChain resolve ps pr b from =
    let freed = record ps { waiting = delete ps.waiting from } in
    let shown = broadcast_block (add_new_gossiper resolve freed from pr.origin) b from in
    (shown.conn, _, refl, refl, refl)

module _ (lib : Platform) (resolve : Text → Address) (t : ℕ) (ps : PuzzlesState)
    (pr : PuzzleResponse) (from : Address) (pp : PuzzleProposal) (b : Block)
    (asked : get ps.waiting from ≡ some pp) (mine : pr.destination ≡ ps.my_name)
    (created : pr.created_block ≡ some b) (same_id : b.node_id ≡ pp.node_id)
    (same_time : b.timestamp.instant ≡ pp.timestamp.instant) where
  response_admitted :
      {chain : BlockChain}
      → add_block lib t ps.local_chain b ≡ ok (chain, true)
      → handle_puzzle_response lib resolve t ps pr from
        ≡ ok (
          admit resolve (record ps { local_chain = chain }) pr b from,
          record { ip_addr = from; node_id = b.node_id } ∷ [],
        )
  unfolding handle_puzzle_response try_admit
  response_admitted e = ground (
    arith,
    ==_iff pr.destination ps.my_name,
    ==_iff b.node_id pp.node_id,
    ==_iff b.timestamp.instant pp.timestamp.instant,
  )

module _ (lib : Platform) (resolve : Text → Address) (clock : ℕ → ℕ) (now : Time)
    (ps : PuzzlesState) (joiner : Address) (name : Text) (id t : ℕ) (l b : Block)
    (h : List Block) where
  -- The response of a joiner to the proposal of `ps`.
  abbrev pub answer : PuzzleResponse
  answer = record { origin = name; destination = ps.my_name; created_block = some b }

  -- A node that has joined, whose chain is the ledger `l ∷ h`, is approached by an address that it
  -- waits for no answer from. It sends a proposal; and a block with the proposed identifier and
  -- timestamp that links to `l`, handed back while it is valid, is admitted: the node's chain is
  -- then the ledger `b ∷ l ∷ h`, the joiner is no longer waited for, the match is handed on, and
  -- the last packet sent is the new chain, to the joiner.
  pub join_succeeds :
      ps.joined ≡ true
      → IsLedger lib (l ∷ h) ps.local_chain
      → get ps.waiting joiner ≡ none
      → next_node_id lib clock ps.local_chain ≡ some id
      → b.node_id ≡ id
      → b.timestamp ≡ now
      → b.previous_hash ≡ hash lib l
      → is_valid lib t b ≡ true
      → (asked admitted : PuzzlesState) × (handle_joining lib clock now ps joiner ≡ ok asked)
        × (handle_puzzle_response lib resolve t asked answer joiner
            ≡ ok (admitted, record { ip_addr = joiner; node_id = id } ∷ []))
        × IsLedger lib (b ∷ l ∷ h) admitted.local_chain
        × (get admitted.waiting joiner ≡ none)
        × EndsWithChain admitted joiner
  unfolding proposed proposal send
  join_succeeds joined ledger new next named timed linked valid =
      let asked = proposed lib clock now ps joiner l ledger.same_last id in
      let (chain, e, last, stored) = add_block-accepts lib t ps.local_chain b ledger.has_map valid (
        unfold matches_last in
        ground (arith, ledger.same_last, ==_iff b.previous_hash (hash lib l))) in
      let stored_state = record asked { local_chain = chain } in
      let a = admit-Admits resolve stored_state answer b joiner in
      let extended : IsLedger lib (append lib t (l ∷ h) b) chain =
        add_block-IsLedger lib t (l ∷ h) ps.local_chain b ledger e in
      let keep : (is_valid lib t b && links lib (l ∷ h) b) ≡ true =
        ground (arith, ==_iff b.previous_hash (hash lib l)) in
      (
        asked,
        admit resolve stored_state answer b joiner,
        handle_joining-proposed lib clock now ps joiner l ledger.same_last id joined new next,
        response_admitted lib resolve t asked answer joiner
              (proposal lib clock now ps joiner l ledger.same_last id) b
              (get-proposed lib clock now ps joiner l ledger.same_last id) refl refl named
              (ap (λ (x : Time). x.instant) timed) e
            ∙ (λ i. ok (
              admit resolve stored_state answer b joiner,
              record { ip_addr = joiner; node_id = named i } ∷ [],
            )),
        rw a.same_chain (rw keep at extended),
        rw (a.freed, get-delete, ==_refl),
        admit-EndsWithChain resolve stored_state answer b joiner,
      )

-- A node that has not joined and is sent a chain takes it over and has then joined, exactly when
-- each listed block of the chain is there and valid; it ignores the links between the blocks.
pub handle_block_chain_iff :
    (lib : Platform) (clock : ℕ → ℕ) (ps ps' : PuzzlesState) (c : BlockChain)
    → ps.joined ≡ false
    → (handle_block_chain lib clock ps (record { chain = some c }) ≡ ok ps') ↔ (
        AllValid lib clock 0 c c.ordered_nodes_ids
        × (ps' ≡ record ps { local_chain = c; joined = true }))
unfolding handle_block_chain
handle_block_chain_iff lib clock ps ps' c j = ground (arith, check_integrity_iff lib clock c)
