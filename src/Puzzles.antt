-- ===== src/Puzzles.antt =====
-- The join protocol of code/puzzleshandler.go: the type `PuzzlesState` and its methods.
-- The connection is the list of the packets written to it, oldest first; a packet that cannot be
-- encoded or sent is only reported by the code. `resolve` is the text of `net.ResolveUDPAddr`.
-- The slice `peers` is a value here: that it may share its array with the gossiper's own slice of
-- peers is not modelled.
pub mod Admission
pub mod Expiry
pub mod Handshake
pub mod Joining
pub mod Faults
pub mod Steps
mod Tests
use blockchain_sybil_attack.Base.{
  ℕ, ◌+◌, Bool, true, false, not, ◌&&◌, Option, none, some, List, [], ◌∷◌, ◌++◌, Text, Map, get,
  put, delete, is_some, ◌==◌, nat_eq, text_eq, if◌then◌else◌, Outcome, ok, panic, deref, fueled,
  bad_integrity, ◌>>=◌,
}
use blockchain_sybil_attack.Chain.Platform.{Platform, Time, RsaPublicKey}
use blockchain_sybil_attack.Chain.Block.{Block}
use blockchain_sybil_attack.Chain.Ledger.{
  BlockChain, add_block, get_last_hash, next_node_id, check_integrity,
}
use blockchain_sybil_attack.Chain.Mining.{Job, mine_block}
use blockchain_sybil_attack.Messages.{
  Address, PuzzleProposal, PuzzleResponse, BlockBroadcast, BlockChainMessage, IpMatchNodeId,
  GossipPacket, empty_packet, Datagram, Gossiper,
}

pub record PuzzlesState : Type 0 where
  pub my_id : ℕ
  pub my_name : Text
  pub priv_key : RsaPublicKey
  pub pub_key : RsaPublicKey
  pub joined : Bool
  pub local_chain : BlockChain
  pub conn : List Datagram
  pub waiting : Map Text PuzzleProposal
  pub peers : List Gossiper

unfoldable pub knows : List Gossiper → Address → Bool
knows [] address = false
knows (g ∷ gs) address = if g.address == address then true else knows gs address

unfoldable pub add_new_gossiper : (Text → Address) → PuzzlesState → Address → Text → PuzzlesState
unfolding knows
add_new_gossiper resolve ps address identifier = if knows ps.peers address then ps else record ps {
  peers = ps.peers ++ record { address = resolve address; identifier = identifier } ∷ [];
}

unfoldable pub send : PuzzlesState → GossipPacket → Address → PuzzlesState
send ps msg dest = record ps {
  conn = ps.conn ++ record { packet = record msg { node_id = ps.my_id }; dest = dest } ∷ [];
}

unfoldable pub send_block_to : PuzzlesState → GossipPacket → Address → List Gossiper → PuzzlesState
send_block_to ps msg from [] = ps
send_block_to ps msg from (peer ∷ peers) =
    send_block_to (if not (peer.address == from) then send ps msg peer.address else ps) msg from
      peers

unfoldable pub broadcast_block : PuzzlesState → Block → Address → PuzzlesState
broadcast_block ps b from =
    send_block_to ps
      (record empty_packet {
        b_broadcast = some (record { origin = ps.my_name; new_block = some b });
      })
      from ps.peers

unfoldable pub send_block_chain : PuzzlesState → Address → PuzzlesState
send_block_chain ps dest =
    send ps (record empty_packet { b_chain = some (record { chain = some ps.local_chain }) }) dest

-- `case <- ticker` of `expireJoining`.
unfoldable pub expire_joining : PuzzlesState → PuzzlesState
expire_joining ps = record ps { joined = false }

-- What `handlePuzzleProposal` does after `mineBlock` has returned `b`, which may be nil.
unfoldable pub answer_proposal :
    (Text → Address) → PuzzlesState → PuzzleProposal → Address → Option Block → PuzzlesState
answer_proposal resolve ps pp from b =
    let named = record ps { my_id = pp.node_id } in
    let met = add_new_gossiper resolve named from pp.origin in
    send met
      (record empty_packet {
        p_response =
            some (record { origin = ps.my_name; destination = pp.origin; created_block = b });
      })
      from

-- What `handlePuzzleResponse` does once the block is in the chain; the match is what is sent on
-- the channel.
unfoldable pub admit :
    (Text → Address) → PuzzlesState → PuzzleResponse → Block → Address → PuzzlesState
admit resolve ps pr b from =
    let freed = record ps { waiting = delete ps.waiting from } in
    let met = add_new_gossiper resolve freed from pr.origin in
    send_block_chain (broadcast_block met b from) from

module _ (lib : Platform) where
  -- `clock` are the readings of the loop of `nextNodeID`, `now` is the proposal's timestamp.
  unfoldable pub send_puzzle_proposal :
      (ℕ → ℕ) → Time → PuzzlesState → Address → Outcome PuzzlesState
  send_puzzle_proposal clock now ps dest = do
    id ← fueled (next_node_id lib clock ps.local_chain)
    last ← get_last_hash lib ps.local_chain
    let pp : PuzzleProposal = record {
      origin = ps.my_name;
      node_id = id;
      timestamp = now;
      previous_hash = last;
    }
    ok (
        send (record ps { waiting = put ps.waiting dest pp })
          (record empty_packet { p_proposal = some pp }) dest)

  unfoldable pub handle_joining : (ℕ → ℕ) → Time → PuzzlesState → Address → Outcome PuzzlesState
  handle_joining clock now ps joiner =
      if is_some ps.local_chain.last_block && ps.joined
      then (if not (is_some (get ps.waiting joiner))
          then send_puzzle_proposal clock now ps joiner
          else ok ps)
      else ok ps

  -- What `handlePuzzleProposal` calls `mineBlock` with.
  abbrev pub proposed_job : PuzzlesState → PuzzleProposal → Job
  proposed_job ps pp = record {
    id = pp.node_id;
    timestamp = pp.timestamp;
    pub_key = ps.pub_key;
    previous_hash = pp.previous_hash;
  }

  unfoldable pub handle_puzzle_proposal :
      (Text → Address)
      → ℕ
      → (ℕ → ℕ)
      → PuzzlesState
      → PuzzleProposal
      → Address
      → Outcome PuzzlesState
  handle_puzzle_proposal resolve fuel clock ps pp from =
      if not ps.joined
      then (do
        b ← fueled (mine_block lib fuel clock (proposed_job ps pp))
        ok (answer_proposal resolve ps pp from b))
      else ok ps

  -- The body of the first `if` of `handlePuzzleResponse`, for the outstanding proposal `pp`.
  unfoldable pub try_admit :
      (Text → Address)
      → ℕ
      → PuzzlesState
      → PuzzleProposal
      → PuzzleResponse
      → Address
      → Outcome (PuzzlesState × List IpMatchNodeId)
  try_admit resolve now ps pp pr from = do
    b ← deref pr.created_block
    if b.node_id == pp.node_id && b.timestamp.instant == pp.timestamp.instant
        then (do
          (chain, success) ← add_block lib now ps.local_chain b
          let ps' = record ps { local_chain = chain }
          ok (
              if success
              then (
                admit resolve ps' pr b from,
                record { ip_addr = from; node_id = b.node_id } ∷ [],
              )
              else (ps', [])))
        else ok (ps, [])

  unfoldable pub handle_puzzle_response :
      (Text → Address)
      → ℕ
      → PuzzlesState
      → PuzzleResponse
      → Address
      → Outcome (PuzzlesState × List IpMatchNodeId)
  handle_puzzle_response resolve now ps pr from = elim (get ps.waiting from) [
    | none ↦ ok (ps, [])
    | some pp ↦
        if pr.destination == ps.my_name then try_admit resolve now ps pp pr from else ok (ps, [])
  ]

  unfoldable pub handle_block_chain :
      (ℕ → ℕ) → PuzzlesState → BlockChainMessage → Outcome PuzzlesState
  handle_block_chain clock ps bcm =
      if not ps.joined
      then (do
        chain ← deref bcm.chain
        good ← check_integrity lib clock chain
        if good then ok (record ps { local_chain = chain; joined = true }) else panic bad_integrity)
      else ok ps

  unfoldable pub handle_block_broadcast :
      ℕ → PuzzlesState → BlockBroadcast → Address → Outcome PuzzlesState
  handle_block_broadcast now ps bb from = do
    b ← deref bb.new_block
    (chain, added) ← add_block lib now ps.local_chain b
    let ps' = record ps { local_chain = chain }
    if added then ok (broadcast_block ps' b from) else ok ps'
