-- ===== src/Dispatch/Barrier.antt =====
-- What the loop of listenPeers in code/gossiper.go lets a node do that is not a member.
use blockchain_sybil_attack.Base.{◌≡◌, ◌⊎◌, refl, false, ok, arith, nat_eq}
use blockchain_sybil_attack.Chain.Platform.{Platform}
use blockchain_sybil_attack.Chain.Ledger.{contains_valid_node_id}
use blockchain_sybil_attack.Messages.{Address, GossipPacket}
use blockchain_sybil_attack.Puzzles.{PuzzlesState, handle_joining}
use blockchain_sybil_attack.Sybil.{denied, handle_gossip_packet}
use blockchain_sybil_attack.Sybil.Gate.{stranger_joins}
use blockchain_sybil_attack.Node.{Net, State}
use blockchain_sybil_attack.Dispatch.{
  Surroundings, settled, with_ps, is_puzzle, meet_sender, receive_from_known, receive_packet,
}

meet_sender-srh :
    (net : Net) (lib : Platform) (w : Surroundings) (from : Address) (s : State)
    → (meet_sender net lib w from s).srh ≡ s.srh
unfolding meet_sender
meet_sender-srh net lib w from s = ground arith

refused_from_known :
    (net : Net) (lib : Platform) (w : Surroundings) (from : Address) (s : State) (p : GossipPacket)
    (ps : PuzzlesState)
    → is_puzzle p ≡ false
    → handle_gossip_packet lib w.now w.clock w.time s.srh p from
      ≡ ok (record s.srh { ps = ps }, denied)
    → receive_from_known net lib w from s p ≡ ok (settled (with_ps s ps))
unfolding receive_from_known
refused_from_known net lib w from s p ps no_puzzle gate = rw (no_puzzle, gate) refl

-- A packet that is no puzzle message, from a node that is not a member or that claims to be this one,
-- does nothing but make its sender a peer and hand it to `handleJoining`, if that returns.
pub stranger_is_held_off :
    (net : Net) (lib : Platform) (w : Surroundings) (from : Address) (s : State) (p : GossipPacket)
    (ps : PuzzlesState)
    → is_puzzle p ≡ false
    → (p.node_id ≡ s.srh.ps.my_id)
      ⊎ (contains_valid_node_id lib w.now s.srh.ps.local_chain p.node_id ≡ false)
    → handle_joining lib w.clock w.time s.srh.ps from ≡ ok ps
    → receive_packet net lib w from s p ≡ ok (settled (with_ps (meet_sender net lib w from s) ps))
unfolding receive_packet
stranger_is_held_off net lib w from s p ps no_puzzle stranger joined =
    let met = meet_sender net lib w from s in
    let same = meet_sender-srh net lib w from s in
    refused_from_known net lib w from met p ps no_puzzle (
      stranger_joins lib w.now w.clock w.time met.srh p from ps (rw same stranger) (rw same joined))
