-- ===== src/Gossip/Tests.antt =====
-- The theorems about rumors and status packets at a gossiper with one peer.
use blockchain_sybil_attack.Base.{
  ◌≡◌, ◌↔◌, refl, false, some, none, [], ◌∷◌, ◌++◌, ok, true, codes, get, ==_iff, arith, text_eqb,
  text_eq, nat_eq,
}
use blockchain_sybil_attack.Base.Int.{pos, succ_ℤ, int_eq}
use blockchain_sybil_attack.Base.Words.{split_from}
use blockchain_sybil_attack.Messages.{PeerStatus, StatusPacket, RumorMessage}
use blockchain_sybil_attack.Node.{State, key_eqb, pick_random_peer}
use blockchain_sybil_attack.Routing.{
  print_peers, peers_text, without_last, overwrite_last, add_peer_from_last, update_routing_table,
}
use blockchain_sybil_attack.Gossip.{
  msg_already_seen, compare_vector_clock_with_other, compare_mine, compare_theirs, find_peer_status,
  update_vector_clock, find_from, get_msg, add_msg_seen,
}
use blockchain_sybil_attack.Gossip.Spreading.{
  receives_status_from_peer, receives_rumor_from_peer, receives_rumor_from_client,
  receives_new_text, send_rumor_to_random,
}
use blockchain_sybil_attack.Gossip.Handlers.{IsSoundState, receives_rumor_from_peer-IsSound}
use blockchain_sybil_attack.Gossip.Compare.{status_of}
use blockchain_sybil_attack.Gossip.Abstract.{clock_of, in_sync_same_clock}
use blockchain_sybil_attack.Gossip.Gaps.{next_of, IsStuck, receives_rumor_from_peer-IsStuck}
use blockchain_sybil_attack.Gossip.Blank.{own_rumor, blank_rumor_lost}
use blockchain_sybil_attack.Gossip.Keyed.{IsKeyed}
use blockchain_sybil_attack.Gossip.Offer.{SentRumor, offered_rumor_advances}
use blockchain_sybil_attack.Samples.{gossiper, next_rumor, net, home, result}

gossiper-IsSound : IsSoundState gossiper
unfolding IsSoundState get key_eqb text_eqb
gossiper-IsSound = ((omega arith, λ k p q. let e : k ≡ 1 = omega arith in rw e refl), tt)

receives_rumor_from_peer-IsSound_example :
    IsSoundState (result (receives_rumor_from_peer net (pos 9) 0 next_rumor home gossiper))
unfolding receives_rumor_from_peer overwrite_last split_from msg_already_seen receives_new_text
    print_peers peers_text without_last send_rumor_to_random pick_random_peer add_peer_from_last get
    text_eqb key_eqb add_msg_seen update_routing_table
receives_rumor_from_peer-IsSound_example =
    receives_rumor_from_peer-IsSound net (pos 9) 0 home next_rumor gossiper
      (result (receives_rumor_from_peer net (pos 9) 0 next_rumor home gossiper)) refl
      gossiper-IsSound

-- A peer that knows nothing.
abbrev blank : StatusPacket
blank = record { want = [] }

first_missing :
    compare_vector_clock_with_other gossiper blank
    ≡ (false, some (get_msg gossiper (codes "B") (pos 1)))
unfolding compare_vector_clock_with_other compare_mine compare_theirs find_peer_status find_from
first_missing = refl

-- Two clocks with the same statuses in another order.
abbrev status_b : PeerStatus
status_b = record { identifier = codes "B"; next_id = pos 2 }

abbrev status_c : PeerStatus
status_c = record { identifier = codes "C"; next_id = pos 1 }

abbrev ordered : State
ordered = record gossiper { vector_clock = record { want = status_b ∷ status_c ∷ [] } }

in_sync_same_clock_example :
    (compare_vector_clock_with_other ordered (record { want = status_c ∷ status_b ∷ [] })
      ≡ (false, none))
    ↔ (clock_of ordered.vector_clock ≡ clock_of (record { want = status_c ∷ status_b ∷ [] }))
unfolding status_of text_eqb
in_sync_same_clock_example =
    in_sync_same_clock ordered (record { want = status_c ∷ status_b ∷ [] }) (refl, (refl, tt))

-- The gossiper waits for rumor 2 of its peer, and has it.
abbrev stuck : State
stuck = record gossiper {
  msgs_seen =
      (
        record { origin = codes "B"; id = pos 2 },
        record { origin = codes "B"; id = pos 2; text = codes "early"; time_added = pos 0 },
      )
      ∷ [];
}

receives_rumor_from_peer-IsStuck_example :
    IsStuck
      (codes "B")
      (pos 2)
      (result (receives_rumor_from_peer net (pos 9) 0 next_rumor home stuck))
unfolding receives_rumor_from_peer overwrite_last split_from msg_already_seen receives_new_text
    print_peers peers_text without_last send_rumor_to_random pick_random_peer add_peer_from_last get
    text_eqb key_eqb status_of
receives_rumor_from_peer-IsStuck_example =
    receives_rumor_from_peer-IsStuck (codes "B") (pos 2) net (pos 9) 0 home next_rumor stuck
      (result (receives_rumor_from_peer net (pos 9) 0 next_rumor home stuck)) refl
      (record { waits = refl; stored = refl })

-- A rumor without a text, at the gossiper of the client and at a peer.
abbrev silent : RumorMessage
silent = record { origin = []; id = pos 1; text = []; last_ip = none; last_port = none }

abbrev teller : State
teller = result (receives_rumor_from_client (pos 9) 0 silent gossiper)

abbrev hearer : State
hearer = result (receives_rumor_from_peer net (pos 9) 0 (own_rumor gossiper silent) home gossiper)

blank_rumor_lost_example :
    (teller.client_next_id ≡ succ_ℤ gossiper.client_next_id)
    × (msg_already_seen teller (own_rumor gossiper silent) ≡ true)
    × (teller.vector_clock ≡ update_vector_clock gossiper.vector_clock (own_rumor gossiper silent))
    × (hearer.msgs_seen ≡ gossiper.msgs_seen)
    × (hearer.vector_clock ≡ gossiper.vector_clock)
unfolding receives_rumor_from_peer receives_rumor_from_client overwrite_last split_from print_peers
    peers_text without_last send_rumor_to_random pick_random_peer add_peer_from_last add_msg_seen
    msg_already_seen get key_eqb text_eqb update_routing_table
blank_rumor_lost_example =
    blank_rumor_lost net (pos 9) (pos 9) 0 0 silent home gossiper teller gossiper hearer refl refl
      refl

-- A gossiper that has heard of nothing.
abbrev listener : State
listener = record gossiper { vector_clock = blank; msgs_seen = [] }

gossiper-IsKeyed : IsKeyed gossiper
unfolding IsKeyed get key_eqb
gossiper-IsKeyed o n r e = grind (arith, ==_iff (codes "B") o, ==_iff (pos 1) n)

offered_rumor_advances_example :
    (a' b' : State) × (receives_status_from_peer 0 0 blank home gossiper ≡ ok a')
    × SentRumor a' (get_msg gossiper (codes "B") (pos 1)) home
    × (receives_rumor_from_peer net
          (pos 9)
          0
          (get_msg gossiper (codes "B") (pos 1))
          (codes "10.0.0.2" ++ 58 ∷ codes "5000")
          listener
        ≡ ok b')
    × (next_of b'.vector_clock.want (codes "B") ≡ some (pos 2))
    × (msg_already_seen b' (get_msg gossiper (codes "B") (pos 1)) ≡ true)
unfolding get_msg get msg_already_seen text_eqb key_eqb
offered_rumor_advances_example =
    offered_rumor_advances net (pos 9) 0 0 0 gossiper listener false
      (get_msg gossiper (codes "B") (pos 1)) home (codes "10.0.0.2") (codes "5000") gossiper-IsKeyed
      refl first_missing refl refl (omega arith)
      (refl, (refl, (refl, (refl, (refl, (refl, (refl, (refl, tt))))))))
      (refl, (refl, (refl, (refl, tt))))
