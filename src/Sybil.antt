-- ===== src/Sybil.antt =====
-- code/sybilresistance.go, code/node_communication.go and code/digital_signatures.go: which packets
-- a node lets in, and how it watches its neighbours.
-- `alive` is what `net.Dial` answers in a round.
pub mod Gate
pub mod Replay
pub mod Watch
pub mod Dials
mod Tests
use blockchain_sybil_attack.Base.{
  ℕ, ◌+◌, Bool, true, false, not, ◌&&◌, Option, none, some, List, [], ◌∷◌, Text, Bytes, get,
  is_some, ◌==◌, nat_eq, text_eq, ltb, if◌then◌else◌, Outcome, ok, deref, ◌>>=◌,
}
use blockchain_sybil_attack.Chain.Platform.{Platform, Time, RsaPublicKey}
use blockchain_sybil_attack.Chain.Block.{bc_pub_key_to_rsa_pub_key}
use blockchain_sybil_attack.Chain.Ledger.{block_of, contains_valid_node_id}
use blockchain_sybil_attack.Messages.{Address, SignedDocument, GossipPacket, empty_packet, Gossiper}
use blockchain_sybil_attack.Puzzles.{PuzzlesState, send, handle_joining}
use blockchain_sybil_attack.Neighbors.{
  attempts, SybilResistanceHandler, set_active, set_counter, is_active, deliver, without_monitor,
  counted, count_up, loop_head,
}

-- What becomes of a packet; `blocked` says that the listening goroutine never goes on.
pub data Verdict : Type 0 where
  allowed denied blocked : Verdict

unfoldable pub inactive_to : PuzzlesState → GossipPacket → Text → List Gossiper → PuzzlesState
inactive_to ps msg ip [] = ps
inactive_to ps msg ip (peer ∷ peers) =
    inactive_to (if not (peer.address == ip) then send ps msg peer.address else ps) msg ip peers

module _ (lib : Platform) where
  unfoldable pub create_hash : Text → Bytes
  create_hash node_id = lib.sha256 node_id

  unfoldable pub sign_document : RsaPublicKey → Bytes → Option SignedDocument
  sign_document key d = elim (lib.sign key d) [
    | none ↦ none
    | some sig ↦ some (record { hashed_data = d; encrypted_data = sig })
  ]

  unfoldable pub find_public_key_for_corresponding_node :
      SybilResistanceHandler → ℕ → Outcome RsaPublicKey
  find_public_key_for_corresponding_node srh id = do
    b ← deref (block_of srh.ps.local_chain id)
    ok (bc_pub_key_to_rsa_pub_key lib b.pub_key)

  unfoldable pub validate_peer : SybilResistanceHandler → Option SignedDocument → ℕ → Outcome Bool
  validate_peer srh none id = ok false
  validate_peer srh (some signed) id = do
    key ← find_public_key_for_corresponding_node srh id
    ok (lib.verify key signed.hashed_data signed.encrypted_data)

  -- `createInactivePacket` and `broadcastInactivePacket`.
  unfoldable pub create_inactive_packet : SybilResistanceHandler → Text → SybilResistanceHandler
  create_inactive_packet srh ip = record srh {
    ps =
        inactive_to srh.ps
          (record empty_packet {
            in_node = some (record { ip_addr = ip });
            digital_sign = sign_document srh.ps.priv_key (create_hash ip);
          })
          ip srh.ps.peers;
  }

  -- `case <-time.After` of `identifyInactiveNodes`: the monitor of `k` has waited in vain. While
  -- `mu1` is held it never comes back to its `select`.
  unfoldable pub monitor_timeout : SybilResistanceHandler → Text → SybilResistanceHandler
  unfolding loop_head
  monitor_timeout srh k =
      let left = record srh {
        cn = record srh.cn { monitors = without_monitor k srh.cn.monitors };
      } in
      elim (counted k srh.cn.monitors) [
        | none ↦ srh
        | some c ↦
            if srh.cn.mu1_held
            then left
            else if (c + 1) == attempts
            then create_inactive_packet (set_active left k false) k
            else loop_head
                (record srh { cn = record srh.cn { monitors = count_up k srh.cn.monitors } }) k
      ]

  -- The counter of a peer after the round's dial.
  unfoldable pub next_counter : Option ℕ → Bool → ℕ
  next_counter none up = if not up then 1 else 0
  next_counter (some counter) up =
      if ltb counter 2 then (if not up then counter + 1 else 0) else counter

  -- The body of the loop of `checkNeighbors` for the peer at `ip`.
  unfoldable pub check_neighbor :
      (Address → Bool) → SybilResistanceHandler → Text → SybilResistanceHandler
  unfolding next_counter
  check_neighbor alive srh ip =
      if is_some (get srh.cn.active_neighbors ip)
      then (let counter = next_counter (get srh.cn.neighbors ip) (alive ip) in
          let srh' = set_counter srh ip counter in
          if counter == attempts
          then create_inactive_packet (set_active srh' ip false) ip
          else set_active srh' ip true)
      else srh

  unfoldable pub check_neighbors_of :
      (Address → Bool) → SybilResistanceHandler → List Gossiper → SybilResistanceHandler
  check_neighbors_of alive srh [] = srh
  check_neighbors_of alive srh (peer ∷ peers) =
      check_neighbors_of alive (check_neighbor alive srh peer.address) peers

  unfoldable pub check_neighbors :
      (Address → Bool) → SybilResistanceHandler → SybilResistanceHandler
  check_neighbors alive srh = check_neighbors_of alive srh srh.ps.peers

  -- The inner `if` of `handleGossipPacket`: a signed notice that another node is inactive.
  unfoldable pub note_inactive :
      SybilResistanceHandler → GossipPacket → Outcome (SybilResistanceHandler × Verdict)
  note_inactive srh gp = elim gp.in_node [
    | none ↦ ok (srh, allowed)
    | some node ↦ elim gp.digital_sign [
      | none ↦ ok (srh, allowed)
      | some signed ↦ do
        good ← validate_peer srh (some signed) gp.node_id
        ok (
            if good
            then (
              if is_some (get srh.cn.active_neighbors node.ip_addr)
                  then set_active srh node.ip_addr false
                  else srh,
              allowed,
            )
            else (srh, denied))
    ]
  ]

  -- What `handleGossipPacket` does with a packet of a node that has a valid block.
  unfoldable pub from_member :
      SybilResistanceHandler → GossipPacket → Address → Outcome (SybilResistanceHandler × Verdict)
  from_member srh gp from =
      if srh.cn.mu1_held
      then ok (srh, blocked)
      else if is_active srh from
      then elim (deliver srh from) [ none ↦ ok (srh, blocked) | some srh' ↦ note_inactive srh' gp ]
      else ok (srh, denied)

  -- `now` is the reading of the clock, `clock` and `time` are those of a proposal.
  unfoldable pub handle_gossip_packet :
      ℕ
      → (ℕ → ℕ)
      → Time
      → SybilResistanceHandler
      → GossipPacket
      → Address
      → Outcome (SybilResistanceHandler × Verdict)
  handle_gossip_packet now clock time srh gp from =
      if not (gp.node_id == srh.ps.my_id)
        && contains_valid_node_id lib now srh.ps.local_chain gp.node_id
      then from_member srh gp from
      else (do ps ← handle_joining lib clock time srh.ps from; ok (record srh { ps = ps }, denied))
