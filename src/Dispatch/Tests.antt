-- ===== src/Dispatch/Tests.antt =====
-- A packet of a stranger at a gossiper that waits for the answer of its only peer.
use blockchain_sybil_attack.Base.{◌≡◌, refl, inr, ok, get, text_eq, text_eqb, put}
use blockchain_sybil_attack.Base.Int.{pos}
use blockchain_sybil_attack.Chain.Ledger.{contains_valid_node_id, block_of}
use blockchain_sybil_attack.Chain.Mining.{genesis_chain}
use blockchain_sybil_attack.Messages.{empty_packet}
use blockchain_sybil_attack.Node.{State}
use blockchain_sybil_attack.Puzzles.{handle_joining}
use blockchain_sybil_attack.Dispatch.{
  Surroundings, settled, with_ps, is_puzzle, meet_sender, receive_packet,
}
use blockchain_sybil_attack.Dispatch.Barrier.{stranger_is_held_off}
use blockchain_sybil_attack.Samples.{toy, net, noon, home, gossiper, waiting_sponsor}

abbrev quiet : Surroundings
quiet = record {
  now = 7;
  clock = λ i. 7;
  time = noon;
  fuel = 1;
  seconds = pos 9;
  coin = 0;
  random = 0;
}

abbrev busy : State
busy = record gossiper { srh = record gossiper.srh { ps = waiting_sponsor } }

stranger_is_held_off_example :
    receive_packet net toy quiet home busy empty_packet
    ≡ ok (settled (with_ps (meet_sender net toy quiet home busy) waiting_sponsor))
unfolding is_puzzle contains_valid_node_id block_of genesis_chain get handle_joining text_eqb put
stranger_is_held_off_example =
    stranger_is_held_off net toy quiet home busy empty_packet waiting_sponsor refl (inr refl) refl
