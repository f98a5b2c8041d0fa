-- ===== src/Network/Tests.antt =====
-- The theorems about several nodes of code/puzzleshandler.go at two members, and at a member and a
-- joiner that is admitted and takes over the chain.
use blockchain_sybil_attack.Base.{
  ℕ, zero, suc, nat_eq, ◌≡◌, refl, true, false, some, List, [], ◌∷◌, ◌⊎◌, inl, ok, get, put, arith,
  text_eqb, little_endian,
}
use blockchain_sybil_attack.Chain.Block.{
  Block, hash, get_bytes, pub_key_to_bytes, is_valid, expired, enough_zeros, all_zero,
  all_zero_digits, binary_digits,
}
use blockchain_sybil_attack.Chain.Ledger.{
  BlockChain, add_block, block_of, contains_valid_node_id, matches_last, store_block, stored_in,
  add_node_id_to_list, without_id, check_integrity, check_from,
}
use blockchain_sybil_attack.Chain.Ledger.History.{IsLedger, add_block-IsLedger}
use blockchain_sybil_attack.Chain.Ledger.Agreement.{Collides}
use blockchain_sybil_attack.Chain.Mining.{genesis_chain}
use blockchain_sybil_attack.Messages.{BlockChainMessage, Datagram, GossipPacket, empty_packet}
use blockchain_sybil_attack.Puzzles.{
  PuzzlesState, handle_block_chain, admit, add_new_gossiper, knows, broadcast_block, send_block_to,
  send_block_chain, send,
}
use blockchain_sybil_attack.Puzzles.Steps.{here, response, chain}
use blockchain_sybil_attack.Network.{System, update, handle, start, later, WasSent}
use blockchain_sybil_attack.Network.Shared.{
  Shared, Descends, Standing, inside, outside, Reach-Shared,
}
use blockchain_sybil_attack.Network.Sent.{Carries}
use blockchain_sybil_attack.Network.Gate.{MinedFor, admitted_was_mined}
use blockchain_sybil_attack.Neighbors.{SybilResistanceHandler, is_active, deliver, take_message}
use blockchain_sybil_attack.Sybil.{allowed, handle_gossip_packet, from_member, note_inactive}
use blockchain_sybil_attack.Network.Forks.{forked_for_good}
use blockchain_sybil_attack.Samples.{
  noon, toy, sum, first_block, second_block, one_block_chain, one_block_chain-IsLedger,
  two_block_chain, two_block_chain-IsLedger, same_address, sponsor, newcomer, home, waiting_sponsor,
  good_answer, admitted_sponsor, home_match, home_admitted,
}

-- The member is node 0 and waits for the answer of the joiner; all other nodes are like the joiner.
abbrev before : System
before zero = waiting_sponsor
before (suc i) = newcomer

before-Standing : (i : ℕ) → Standing toy first_block (before i)
before-Standing zero =
    inside (record { newer = []; ledger = one_block_chain-IsLedger; worked = tt })
before-Standing (suc i) = outside refl refl

before-Carries : (i : ℕ) → Carries (Descends toy first_block) (before i).conn
before-Carries zero = tt
before-Carries (suc i) = tt

abbrev sent_chain : BlockChainMessage
sent_chain = record { chain = some two_block_chain }

abbrev joined_newcomer : PuzzlesState
joined_newcomer = record newcomer { local_chain = two_block_chain; joined = true }

chain_taken : handle_block_chain toy (λ i. 7) newcomer sent_chain ≡ ok joined_newcomer
unfolding handle_block_chain check_integrity check_from block_of get is_valid expired enough_zeros
    all_zero all_zero_digits binary_digits hash get_bytes pub_key_to_bytes little_endian sum
    text_eqb
chain_taken = refl

abbrev between : System
between = update before 0 admitted_sponsor

abbrev sent_datagram : Datagram
sent_datagram = record {
  packet = record empty_packet { b_chain = some sent_chain; node_id = 1 };
  dest = home;
}

chain_sent : WasSent between sent_chain
unfolding admit add_new_gossiper knows broadcast_block send_block_to send_block_chain send text_eqb
chain_sent = (0, sent_datagram, inl refl, refl)

Reach-Shared_example : Shared toy first_block (update between 1 joined_newcomer)
Reach-Shared_example =
    Reach-Shared toy first_block same_address before (update between 1 joined_newcomer)
      (record { nodes = before-Standing; chains = before-Carries })
      (later
        (later start
          (handle 0 admitted_sponsor (response 7 good_answer home home_match home_admitted) tt))
        (handle 1 joined_newcomer (chain (λ i. 7) sent_chain chain_taken) chain_sent))

-- The chain of another member, which has admitted another node after the first block.
abbrev third_block : Block
third_block = record second_block { node_id = 3 }

abbrev forked_chain : BlockChain
forked_chain = record {
  blocks_per_node_id = some ((1, first_block) ∷ (3, third_block) ∷ []);
  ordered_nodes_ids = 1 ∷ 3 ∷ [];
  last_block = some third_block;
}

third_block_added : add_block toy 7 one_block_chain third_block ≡ ok (forked_chain, true)
unfolding add_block matches_last store_block stored_in add_node_id_to_list without_id genesis_chain
    put is_valid expired enough_zeros all_zero all_zero_digits binary_digits hash get_bytes
    pub_key_to_bytes little_endian sum text_eqb
third_block_added = refl

forked_chain-IsLedger : IsLedger toy (third_block ∷ first_block ∷ []) forked_chain
unfolding is_valid expired enough_zeros all_zero all_zero_digits binary_digits hash get_bytes
    pub_key_to_bytes little_endian sum text_eqb
forked_chain-IsLedger =
    add_block-IsLedger toy 7 (first_block ∷ []) one_block_chain third_block {added = true}
      one_block_chain-IsLedger third_block_added

abbrev one_member : PuzzlesState
one_member = record sponsor { local_chain = two_block_chain }

abbrev other_member : PuzzlesState
other_member = record sponsor { local_chain = forked_chain }

abbrev fourth_block : Block
fourth_block = record second_block { node_id = 4; previous_hash = hash toy second_block }

abbrev longer_chain : BlockChain
longer_chain = record {
  blocks_per_node_id = some ((1, first_block) ∷ (2, second_block) ∷ (4, fourth_block) ∷ []);
  ordered_nodes_ids = 1 ∷ 2 ∷ 4 ∷ [];
  last_block = some fourth_block;
}

fourth_block_added : add_block toy 7 two_block_chain fourth_block ≡ ok (longer_chain, true)
unfolding add_block matches_last store_block stored_in add_node_id_to_list without_id put is_valid
    expired enough_zeros all_zero all_zero_digits binary_digits hash get_bytes pub_key_to_bytes
    little_endian sum text_eqb
fourth_block_added = refl

forked_for_good_example :
    (u v : List Block) × IsLedger toy u two_block_chain
    × IsLedger toy v forked_chain
    × ((add_block toy 8 forked_chain fourth_block ≡ ok (forked_chain, false)) ⊎ Collides toy u v)
forked_for_good_example =
    forked_for_good toy same_address first_block second_block third_block [] one_member other_member
      one_member other_member 7 8 fourth_block longer_chain (λ e. ground (arith, e)) (omega arith)
      (record { joined = refl; newer = []; ledger = two_block_chain-IsLedger; worked = tt })
      (record { joined = refl; newer = []; ledger = forked_chain-IsLedger; worked = tt }) here here
      fourth_block_added

-- The gate of the member, after it has admitted the joiner.
abbrev gate : SybilResistanceHandler
gate = record {
  ps = admitted_sponsor;
  cn = record {
    neighbors = (home, 0) ∷ [];
    active_neighbors = (home, true) ∷ [];
    monitors = record { key = home; c = 0 } ∷ [];
    mu1_held = false;
  };
}

abbrev joiner_packet : GossipPacket
joiner_packet = record empty_packet { node_id = 2 }

let_in : handle_gossip_packet toy 7 (λ i. 7) noon gate joiner_packet home ≡ ok (gate, allowed)
unfolding handle_gossip_packet from_member note_inactive is_active deliver take_message
    contains_valid_node_id block_of get put is_valid expired enough_zeros all_zero all_zero_digits
    binary_digits hash get_bytes pub_key_to_bytes little_endian text_eqb admit add_new_gossiper
    knows broadcast_block send_block_to send_block_chain send
let_in = refl

admitted_was_mined_example : MinedFor toy 7 first_block (between 0).local_chain 2
admitted_was_mined_example =
    admitted_was_mined toy 7 first_block same_address before between 0 (λ i. 7) noon gate gate
      joiner_packet home (record { nodes = before-Standing; chains = before-Carries })
      (later start
        (handle 0 admitted_sponsor (response 7 good_answer home home_match home_admitted) tt))
      refl let_in
