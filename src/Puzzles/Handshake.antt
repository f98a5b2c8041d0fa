-- ===== src/Puzzles/Handshake.antt =====
-- The join protocol of code/puzzleshandler.go on both sides: the four packets that a member and a
-- joiner exchange.
use blockchain_sybil_attack.Base.{
  ℕ, ◌≡◌, refl, ap, sym, ◌∙◌, true, false, Option, none, some, List, [], ◌∷◌, ◌++◌, Text, get,
  ==_iff, nat_eq, text_eq, ok, arith,
}
use blockchain_sybil_attack.Chain.Platform.{Platform, Time}
use blockchain_sybil_attack.Chain.Block.{Block, hash, is_valid}
use blockchain_sybil_attack.Chain.Ledger.{next_node_id, contains_valid_node_id}
use blockchain_sybil_attack.Chain.Ledger.History.{IsLedger, latest}
use blockchain_sybil_attack.Chain.Mining.{trial, mine_block}
use blockchain_sybil_attack.Chain.Mining.Search.{mined_trial}
use blockchain_sybil_attack.Messages.{
  Address, PuzzleProposal, PuzzleResponse, GossipPacket, empty_packet, Datagram,
}
use blockchain_sybil_attack.Puzzles.{
  PuzzlesState, send, answer_proposal, proposed_job, handle_joining, handle_puzzle_proposal,
  handle_puzzle_response, handle_block_chain,
}
use blockchain_sybil_attack.Puzzles.Admission.{add_new_gossiper-SameCore}
use blockchain_sybil_attack.Puzzles.Expiry.{AllValid-fresh}
use blockchain_sybil_attack.Puzzles.Joining.{
  proposed, proposal, handle_joining-proposed, join_succeeds, handle_block_chain_iff, EndsWithChain,
}

-- The last packet that was sent, to `dest`.
abbrev pub LastSent : PuzzlesState → GossipPacket → Address → Type 0
LastSent ps p dest =
    (earlier : List Datagram) × (ps.conn
      ≡ earlier ++ record { packet = record p { node_id = ps.my_id }; dest = dest } ∷ [])

answer_proposal-joiner :
    (resolve : Text → Address) (js : PuzzlesState) (pp : PuzzleProposal) (from : Address)
    (o : Option Block)
    → ((answer_proposal resolve js pp from o).joined ≡ js.joined)
      × ((answer_proposal resolve js pp from o).my_id ≡ pp.node_id)
      × ((answer_proposal resolve js pp from o).my_name ≡ js.my_name)
unfolding answer_proposal send
answer_proposal-joiner resolve js pp from o =
    let named = record js { my_id = pp.node_id } in
    let met = add_new_gossiper-SameCore resolve named from pp.origin in
    (met.same_joined, met.same_id, met.same_name)

answer_proposal-LastSent :
    (resolve : Text → Address) (js : PuzzlesState) (pp : PuzzleProposal) (from : Address)
    (o : Option Block)
    → LastSent
        (answer_proposal resolve js pp from o)
        (record empty_packet {
          p_response =
              some (record { origin = js.my_name; destination = pp.origin; created_block = o });
        })
        from
unfolding answer_proposal send
answer_proposal-LastSent resolve js pp from o = (_, refl)

-- The proposal of the member, and the response of the joiner.
abbrev pub offered : Platform → Time → PuzzlesState → ℕ → Block → PuzzleProposal
offered lib now ps id l = record {
  origin = ps.my_name;
  node_id = id;
  timestamp = now;
  previous_hash = hash lib l;
}

abbrev pub returned : PuzzlesState → PuzzlesState → Block → PuzzleResponse
returned ps js b = record { origin = js.my_name; destination = ps.my_name; created_block = some b }

module _ (lib : Platform) (resolve : Text → Address) (clock : ℕ → ℕ) (now : Time)
    (ps js : PuzzlesState) (home host : Address) (id t fuel : ℕ) (mining checking : ℕ → ℕ)
    (l b : Block) (h : List Block) where
  asked_last :
      (asked : PuzzlesState)
      → handle_joining lib clock now ps home ≡ ok asked
      → ps.joined ≡ true
      → IsLedger lib (l ∷ h) ps.local_chain
      → get ps.waiting home ≡ none
      → next_node_id lib clock ps.local_chain ≡ some id
      → LastSent asked (record empty_packet { p_proposal = some (offered lib now ps id l) }) home
  unfolding proposed proposal send
  asked_last asked asks joined ledger new next =
      let same : asked ≡ proposed lib clock now ps home l ledger.same_last id = ground (
        arith,
        handle_joining-proposed lib clock now ps home l ledger.same_last id joined new next,
      ) in
      rw same (ps.conn, refl)

  registered :
      (admitted : PuzzlesState)
      → IsLedger lib (b ∷ l ∷ h) admitted.local_chain
      → b.node_id ≡ id
      → is_valid lib t b ≡ true
      → contains_valid_node_id lib t admitted.local_chain id ≡ true
  unfolding contains_valid_node_id
  registered admitted grown named valid =
      let here = grown.same_blocks id in ground (arith, ==_iff b.node_id id)

  -- A joiner at `home` approaches a member at `host`, whose chain is the ledger `l ∷ h`. The member
  -- sends a proposal; the joiner mines a block for it and sends it back; the member admits it, and
  -- sends its chain; the joiner takes that over. Both then hold the ledger `b ∷ l ∷ h`, and the joiner
  -- has joined under the identifier of its block, which is valid in it; provided that the mining finds
  -- a block, that this is valid when it comes back, and that every newest block is still valid when
  -- the joiner checks them.
  pub handshake :
      ps.joined ≡ true
      → js.joined ≡ false
      → IsLedger lib (l ∷ h) ps.local_chain
      → get ps.waiting home ≡ none
      → next_node_id lib clock ps.local_chain ≡ some id
      → mine_block lib fuel mining (proposed_job lib js (offered lib now ps id l)) ≡ some (some b)
      → is_valid lib t b ≡ true
      → ((i k : ℕ) (c : Block) → latest (b ∷ l ∷ h) k ≡ some c → is_valid lib (checking i) c ≡ true)
      → (asked answered admitted joined : PuzzlesState) × (handle_joining lib clock now ps home
          ≡ ok asked)
        × LastSent asked (record empty_packet { p_proposal = some (offered lib now ps id l) }) home
        × (handle_puzzle_proposal lib resolve fuel mining js (offered lib now ps id l) host
            ≡ ok answered)
        × LastSent answered (record empty_packet { p_response = some (returned ps js b) }) host
        × (handle_puzzle_response lib resolve t asked (returned ps js b) home
            ≡ ok (admitted, record { ip_addr = home; node_id = id } ∷ []))
        × EndsWithChain admitted home
        × (handle_block_chain lib checking answered (record { chain = some admitted.local_chain })
            ≡ ok joined)
        × IsLedger lib (b ∷ l ∷ h) admitted.local_chain
        × (joined.local_chain ≡ admitted.local_chain)
        × (joined.joined ≡ true)
        × (joined.my_id ≡ id)
        × (contains_valid_node_id lib t joined.local_chain id ≡ true)
  unfolding handle_puzzle_proposal mine_block trial
  handshake joined out ledger new next mined valid fresh =
      let (n, same, _) =
        mined_trial lib fuel mining (proposed_job lib js (offered lib now ps id l)) 0 b mined in
      let (asked, admitted, asks, admits, grown, freed, ends) =
        join_succeeds lib resolve clock now ps home js.my_name id t l b h joined ledger new next
          (ap (λ (c : Block). c.node_id) same) (ap (λ (c : Block). c.timestamp) same)
          (ap (λ (c : Block). c.previous_hash) same) valid in
      let answered = answer_proposal resolve js (offered lib now ps id l) host (some b) in
      let (still_out, named, called) =
        answer_proposal-joiner resolve js (offered lib now ps id l) host (some b) in
      let settled = record answered { local_chain = admitted.local_chain; joined = true } in
      let checked =
        AllValid-fresh lib checking admitted.local_chain 0 admitted.local_chain.ordered_nodes_ids
          (λ k m. grown.shape.keys k ∙ m)
          (λ j k c here. fresh j k c (sym (grown.same_blocks k) ∙ here)) in
      (
        asked,
        answered,
        admitted,
        settled,
        asks,
        asked_last asked asks joined ledger new next,
        ground arith,
        answer_proposal-LastSent resolve js (offered lib now ps id l) host (some b),
        admits,
        ends,
        (handle_block_chain_iff lib checking answered settled admitted.local_chain
              (still_out ∙ out)).1
            (checked, refl),
        grown,
        refl,
        refl,
        named,
        registered admitted grown (ap (λ (c : Block). c.node_id) same) valid,
      )
