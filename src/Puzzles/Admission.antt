-- ===== src/Puzzles/Admission.antt =====
-- What `handlePuzzleResponse` of code/puzzleshandler.go admits, and what it leaves alone.
use blockchain_sybil_attack.Base.{
  ℕ, ◌≡◌, refl, Bool, true, false, ◌&&◌, Option, none, some, List, [], ◌∷◌, Text, get, delete,
  get-delete, ◌==◌, ==_iff, ==_refl, nat_eq, text_eq, Outcome, ok, panic, arith, inl, inr,
  Bool-cases, ◌∙◌,
}
use blockchain_sybil_attack.Chain.Platform.{Platform}
use blockchain_sybil_attack.Chain.Block.{Block}
use blockchain_sybil_attack.Chain.Ledger.{BlockChain, add_block}
use blockchain_sybil_attack.Chain.Ledger.Shape.{accepted, refused, add_block-Added}
use blockchain_sybil_attack.Messages.{
  Address, PuzzleProposal, PuzzleResponse, IpMatchNodeId, GossipPacket, Gossiper,
}
use blockchain_sybil_attack.Puzzles.{
  PuzzlesState, add_new_gossiper, send, send_block_to, broadcast_block, send_block_chain, admit,
  try_admit, handle_puzzle_response,
}

-- Two states that differ in what was sent and in the peers alone.
pub record SameCore (ps ps' : PuzzlesState) : Type 0 where
  pub same_id : ps'.my_id ≡ ps.my_id
  pub same_name : ps'.my_name ≡ ps.my_name
  pub same_joined : ps'.joined ≡ ps.joined
  pub same_chain : ps'.local_chain ≡ ps.local_chain
  pub same_waiting : ps'.waiting ≡ ps.waiting

pub send_block_to-SameCore :
    (ps : PuzzlesState) (msg : GossipPacket) (from : Address) (peers : List Gossiper)
    → SameCore ps (send_block_to ps msg from peers)
unfolding send_block_to send
send_block_to-SameCore ps msg from [] = ground arith
send_block_to-SameCore ps msg from (p ∷ peers) = elim (Bool-cases (p.address == from)) [
  | inl same ↦ rw same (send_block_to-SameCore ps msg from peers)
  | inr other ↦ rw other (
      let r = send_block_to-SameCore (send ps msg p.address) msg from peers in
      record {
        same_id = r.same_id;
        same_name = r.same_name;
        same_joined = r.same_joined;
        same_chain = r.same_chain;
        same_waiting = r.same_waiting;
      })
]

pub broadcast_block-SameCore :
    (ps : PuzzlesState) (b : Block) (from : Address) → SameCore ps (broadcast_block ps b from)
unfolding broadcast_block
broadcast_block-SameCore ps b from = send_block_to-SameCore ps _ from ps.peers

pub add_new_gossiper-SameCore :
    (resolve : Text → Address) (ps : PuzzlesState) (a : Address) (name : Text)
    → SameCore ps (add_new_gossiper resolve ps a name)
unfolding add_new_gossiper
add_new_gossiper-SameCore resolve ps a name = ground arith

-- What `admit` changes besides what was sent and the peers.
pub record Admits (ps ps' : PuzzlesState) (from : Address) : Type 0 where
  pub same_id : ps'.my_id ≡ ps.my_id
  pub same_name : ps'.my_name ≡ ps.my_name
  pub same_joined : ps'.joined ≡ ps.joined
  pub same_chain : ps'.local_chain ≡ ps.local_chain
  pub freed : ps'.waiting ≡ delete ps.waiting from

pub admit-Admits :
    (resolve : Text → Address) (ps : PuzzlesState) (pr : PuzzleResponse) (b : Block)
    (from : Address)
    → Admits ps (admit resolve ps pr b from) from
unfolding admit send_block_chain send
admit-Admits resolve ps pr b from =
    let freed = record ps { waiting = delete ps.waiting from } in
    let met = add_new_gossiper resolve freed from pr.origin in
    let x = add_new_gossiper-SameCore resolve freed from pr.origin in
    let y = broadcast_block-SameCore met b from in
    record {
      same_id = y.same_id ∙ x.same_id;
      same_name = y.same_name ∙ x.same_name;
      same_joined = y.same_joined ∙ x.same_joined;
      same_chain = y.same_chain ∙ x.same_chain;
      freed = y.same_waiting ∙ x.same_waiting;
    }

-- A call of `handlePuzzleResponse` that returns has admitted a block or changed nothing.
pub data Response (lib : Platform) (now : ℕ) (ps : PuzzlesState) (pr : PuzzleResponse)
    (from : Address) (ps' : PuzzlesState) (sent : List IpMatchNodeId) : Type 0 where
  ignored : ps' ≡ ps → sent ≡ [] → Response lib now ps pr from ps' sent
  admitted :
      (pp : PuzzleProposal) (b : Block)
      → get ps.waiting from ≡ some pp
      → pr.destination ≡ ps.my_name
      → pr.created_block ≡ some b
      → b.node_id ≡ pp.node_id
      → b.timestamp.instant ≡ pp.timestamp.instant
      → add_block lib now ps.local_chain b ≡ ok (ps'.local_chain, true)
      → get ps'.waiting from ≡ none
      → ps'.joined ≡ ps.joined
      → sent ≡ record { ip_addr = from; node_id = b.node_id } ∷ []
      → Response lib now ps pr from ps' sent

module _ (lib : Platform) (resolve : Text → Address) (now : ℕ) (ps : PuzzlesState)
    (pr : PuzzleResponse) (from : Address) where
  refused_chain :
      (b : Block) {chain : BlockChain}
      → add_block lib now ps.local_chain b ≡ ok (chain, false)
      → chain ≡ ps.local_chain
  refused_chain b e = elim (add_block-Added lib now ps.local_chain b e) [
    | accepted m here valid match yes_added same ↦ absurd (ground arith)
    | refused bad not_added same ↦ same
  ]

  try_admit-Response :
      (pp : PuzzleProposal) (b : Block) {ps' : PuzzlesState} {sent : List IpMatchNodeId}
      → get ps.waiting from ≡ some pp
      → pr.destination ≡ ps.my_name
      → pr.created_block ≡ some b
      → try_admit lib resolve now ps pp pr from ≡ ok (ps', sent)
      → Response lib now ps pr from ps' sent
  try_admit-Response pp b {ps'} {sent} w d c e =
      elim (Bool-cases (b.node_id == pp.node_id && b.timestamp.instant == pp.timestamp.instant)) [
        | inr differs ↦
            ignored (unfold try_admit in ground arith) (unfold try_admit in ground arith)
        | inl agrees ↦ matched (add_block lib now ps.local_chain b) refl agrees
      ]
    where
      matched :
          (r : Outcome (BlockChain × Bool))
          → add_block lib now ps.local_chain b ≡ r
          → (b.node_id == pp.node_id && b.timestamp.instant == pp.timestamp.instant) ≡ true
          → Response lib now ps pr from ps' sent
      matched (panic p) added agrees = absurd (unfold try_admit in ground arith)
      matched (ok (chain, false)) added agrees =
          (let still : chain ≡ ps.local_chain = refused_chain b added in
            ignored (unfold try_admit in ground arith) (unfold try_admit in ground arith))
      matched (ok (chain, true)) added agrees =
          let stored = record ps { local_chain = chain } in
          let a = admit-Admits resolve stored pr b from in
          let same : ps' ≡ admit resolve stored pr b from = unfold try_admit in ground arith in
          admitted pp b w d c (ground arith) (ground arith) (rw (same, a.same_chain) added)
            (rw (same, a.freed, get-delete, ==_refl)) (rw same a.same_joined)
            (unfold try_admit in ground arith)

  -- A call of `handlePuzzleResponse` that returns has changed nothing, unless a proposal to the
  -- sender is outstanding, the response is addressed to this node, its block has the proposed
  -- identifier and instant, and `addBlock` accepts the block; then the new chain is that of
  -- `addBlock`, the proposal is no longer outstanding and the match is handed on.
  pub handle_puzzle_response-Response :
      {ps' : PuzzlesState} {sent : List IpMatchNodeId}
      → handle_puzzle_response lib resolve now ps pr from ≡ ok (ps', sent)
      → Response lib now ps pr from ps' sent
  handle_puzzle_response-Response {ps'} {sent} e = waited (get ps.waiting from) refl
    where
      answered :
          (pp : PuzzleProposal) (c : Option Block)
          → get ps.waiting from ≡ some pp
          → pr.created_block ≡ c
          → pr.destination ≡ ps.my_name
          → Response lib now ps pr from ps' sent
      answered pp none w c d = absurd (
          unfold handle_puzzle_response try_admit in
          ground (arith, ==_iff pr.destination ps.my_name))
      answered pp (some b) w c d =
          try_admit-Response pp b w d c
            (unfold handle_puzzle_response in ground (arith, ==_iff pr.destination ps.my_name))

      waited :
          (o : Option PuzzleProposal)
          → get ps.waiting from ≡ o
          → Response lib now ps pr from ps' sent
      waited none w =
          ignored (unfold handle_puzzle_response in ground arith)
            (unfold handle_puzzle_response in ground arith)
      waited (some pp) w = elim (Bool-cases (pr.destination == ps.my_name)) [
        | inl mine ↦ answered pp pr.created_block w refl ((==_iff pr.destination ps.my_name).0 mine)
        | inr other ↦
            ignored (unfold handle_puzzle_response in ground arith)
              (unfold handle_puzzle_response in ground arith)
      ]
