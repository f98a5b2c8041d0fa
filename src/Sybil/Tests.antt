-- ===== src/Sybil/Tests.antt =====
-- The theorems of code/sybilresistance.go and code/node_communication.go at a node with one
-- neighbour.
use blockchain_sybil_attack.Base.{
  codes, ◌≡◌, refl, true, false, some, [], ◌∷◌, ok, get, put, arith, min, ltb, text_eqb, text_eq,
  nat_eq, little_endian,
}
use blockchain_sybil_attack.Chain.Block.{
  hash, get_bytes, pub_key_to_bytes, is_valid, expired, enough_zeros, all_zero, all_zero_digits,
  binary_digits,
}
use blockchain_sybil_attack.Chain.Ledger.{block_of, contains_valid_node_id}
use blockchain_sybil_attack.Messages.{Address, GossipPacket, empty_packet}
use blockchain_sybil_attack.Neighbors.{
  SybilResistanceHandler, attempts, is_active, set_active, deliver, take_message, counted,
}
use blockchain_sybil_attack.Sybil.{
  allowed, blocked, monitor_timeout, check_neighbor, from_member, note_inactive,
  handle_gossip_packet, validate_peer, find_public_key_for_corresponding_node,
}
use blockchain_sybil_attack.Sybil.Replay.{notice_replayed}
use blockchain_sybil_attack.Sybil.Gate.{Admitted, handle_gossip_packet-Admitted}
use blockchain_sybil_attack.Sybil.Watch.{
  watchers, marked_neighbour_deadlocks, silent_neighbour_blocks,
}
use blockchain_sybil_attack.Sybil.Dials.{failing_rounds, failing_rounds_mark}
use blockchain_sybil_attack.Samples.{toy, noon, two_block_chain, home, waiting_sponsor}

-- The sponsor with both blocks, and `home` as its only neighbour.
abbrev watching : SybilResistanceHandler
watching = record {
  ps = record waiting_sponsor { local_chain = two_block_chain };
  cn = record {
    neighbors = (home, 0) ∷ [];
    active_neighbors = (home, true) ∷ [];
    monitors = record { key = home; c = 0 } ∷ [];
    mu1_held = false;
  };
}

-- A packet of node 2 with a signed notice about `home` itself.
abbrev notice : GossipPacket
notice = record empty_packet {
  node_id = 2;
  in_node = some (record { ip_addr = home });
  digital_sign = some (record { hashed_data = 1 ∷ []; encrypted_data = 1 ∷ [] });
}

abbrev silenced : SybilResistanceHandler
silenced = record watching { cn = record watching.cn { active_neighbors = (home, false) ∷ [] } }

notice_let_in :
    handle_gossip_packet toy 7 (λ i. 7) noon watching notice home ≡ ok (silenced, allowed)
unfolding handle_gossip_packet from_member note_inactive is_active deliver take_message set_active
    validate_peer find_public_key_for_corresponding_node contains_valid_node_id block_of get put
    is_valid expired enough_zeros all_zero all_zero_digits binary_digits hash get_bytes
    pub_key_to_bytes little_endian text_eqb
notice_let_in = refl

handle_gossip_packet-Admitted_example : Admitted toy 7 watching notice home
handle_gossip_packet-Admitted_example =
    handle_gossip_packet-Admitted toy 7 (λ i. 7) noon watching notice home {srh' = silenced}
      notice_let_in

-- A node that also watches `far`.
abbrev far : Address
far = codes "10.0.0.9:1"

abbrev watching_two : SybilResistanceHandler
watching_two = record watching {
  cn = record watching.cn {
    active_neighbors = (home, true) ∷ (far, true) ∷ [];
    monitors = record { key = home; c = 0 } ∷ record { key = far; c = 0 } ∷ [];
  };
}

abbrev without_home : SybilResistanceHandler
without_home = record watching_two {
  cn = record watching_two.cn { active_neighbors = (home, false) ∷ (far, true) ∷ [] };
}

notice_let_in_of_two :
    handle_gossip_packet toy 7 (λ i. 7) noon watching_two notice home ≡ ok (without_home, allowed)
unfolding handle_gossip_packet from_member note_inactive is_active deliver take_message set_active
    validate_peer find_public_key_for_corresponding_node contains_valid_node_id block_of get put
    is_valid expired enough_zeros all_zero all_zero_digits binary_digits hash get_bytes
    pub_key_to_bytes little_endian text_eqb
notice_let_in_of_two = refl

signer_valid : contains_valid_node_id toy 7 without_home.ps.local_chain 2 ≡ true
unfolding contains_valid_node_id block_of get is_valid expired enough_zeros all_zero all_zero_digits
    binary_digits hash get_bytes pub_key_to_bytes little_endian
signer_valid = refl

notice_replayed_example :
    (t : SybilResistanceHandler) × (handle_gossip_packet toy 7
        (λ i. 7)
        noon
        without_home
        (record notice { in_node = some (record { ip_addr = far }) })
        far
      ≡ ok (t, allowed))
    × (is_active t far ≡ false)
unfolding is_active get text_eqb take_message
notice_replayed_example =
    notice_replayed toy 7 7 (λ i. 7) (λ i. 7) noon noon watching_two without_home notice
      (record { ip_addr = home }) (record { ip_addr = far })
      (record { hashed_data = 1 ∷ []; encrypted_data = 1 ∷ [] }) home far refl refl
      notice_let_in_of_two signer_valid refl refl refl refl

failing_rounds_mark_example :
    (is_active (failing_rounds toy 3 watching home) home ≡ ltb 3 attempts)
    × (get (failing_rounds toy 3 watching home).cn.neighbors home ≡ some (min 3 attempts))
unfolding get text_eqb
failing_rounds_mark_example = failing_rounds_mark toy 3 watching home refl refl

silent_neighbour_blocks_example :
    (s : SybilResistanceHandler) × (from_member toy
        (check_neighbor toy
          (λ a. true)
          (monitor_timeout toy (monitor_timeout toy watching home) home)
          home)
        notice
        home
      ≡ ok (s, blocked))
unfolding watchers counted is_active get text_eqb
silent_neighbour_blocks_example =
    silent_neighbour_blocks toy watching home refl refl refl refl (λ a. true) notice {n = 0} refl
      (omega arith) refl

marked_neighbour_deadlocks_example :
    (from_member toy (monitor_timeout toy silenced home) notice home
      ≡ ok (monitor_timeout toy silenced home, blocked))
    × ((monitor_timeout toy (monitor_timeout toy silenced home) home).cn.mu1_held ≡ true)
unfolding counted is_active get text_eqb
marked_neighbour_deadlocks_example =
    marked_neighbour_deadlocks toy silenced home home notice home refl refl refl
