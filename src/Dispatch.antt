-- ===== src/Dispatch.antt =====
-- The loop of listenPeers in code/gossiper.go: what one packet that was received and decoded does.
pub mod Barrier
pub mod Clients
pub mod Peers
mod Tests
use blockchain_sybil_attack.Base.{
  ℕ, Bool, true, false, not, ◌&&◌, ◌||◌, none, some, List, [], ◌∷◌, is_some, if◌then◌else◌, Outcome,
  ok, ◌>>=◌,
}
use blockchain_sybil_attack.Base.Int.{ℤ}
use blockchain_sybil_attack.Chain.Platform.{Platform, Time}
use blockchain_sybil_attack.Messages.{Address, GossipPacket, IpMatchNodeId}
use blockchain_sybil_attack.Puzzles.{
  PuzzlesState, handle_puzzle_proposal, handle_puzzle_response, handle_block_chain,
  handle_block_broadcast,
}
use blockchain_sybil_attack.Sybil.{allowed, denied, blocked, handle_gossip_packet}
use blockchain_sybil_attack.Node.{Net, State}
use blockchain_sybil_attack.Routing.{already_know_peer, add_peer, print_peers}
use blockchain_sybil_attack.Routing.Private.{receives_private_message_from_peer}
use blockchain_sybil_attack.Gossip.Spreading.{receives_rumor_from_peer, receives_status_from_peer}
use blockchain_sybil_attack.Files.Transfer.{
  receives_data_request_from_peer, receives_data_reply_from_peer,
}
use blockchain_sybil_attack.Search.{receives_search_request_from_peer}
use blockchain_sybil_attack.Search.Results.{receives_search_reply_from_peer}

-- What the handling of one packet takes from outside: the clock's readings, in nanoseconds and as a
-- proposal's timestamp, the rounds that mining is given, the clock in seconds, and random numbers.
pub record Surroundings : Type 0 where
  pub now : ℕ
  pub clock : ℕ → ℕ
  pub time : Time
  pub fuel : ℕ
  pub seconds : ℤ
  pub coin : ℕ
  pub random : ℕ

-- The state after a packet, the matches that were handed on, and whether the loop never goes on.
pub record Received : Type 0 where
  pub state : State
  pub matches : List IpMatchNodeId
  pub stopped : Bool

abbrev pub settled : State → Received
settled s = record { state = s; matches = []; stopped = false }

abbrev pub with_ps : State → PuzzlesState → State
with_ps s ps = record s { srh = record s.srh { ps = ps } }

-- The first is set, and none of the others.
abbrev pub alone : Bool → List Bool → Bool
alone b [] = b
alone b (c ∷ others) = alone (b && not c) others

unfoldable pub is_puzzle : GossipPacket → Bool
is_puzzle p =
    is_some p.p_proposal || is_some p.p_response || is_some p.b_broadcast || is_some p.b_chain

module _ (net : Net) (lib : Platform) (w : Surroundings) (from : Address) where
  unfoldable pub receive_puzzle : State → GossipPacket → Outcome Received
  receive_puzzle s p = elim p.p_proposal [
    | some pp ↦ (do
      ps ← handle_puzzle_proposal lib net.resolve w.fuel w.clock s.srh.ps pp from
      ok (settled (with_ps s ps)))
    | none ↦ elim p.p_response [
      | some pr ↦ (do
        (ps, matches) ← handle_puzzle_response lib net.resolve w.now s.srh.ps pr from
        ok (record { state = with_ps s ps; matches = matches; stopped = false }))
      | none ↦ elim p.b_broadcast [
        | some bb ↦ (do
          ps ← handle_block_broadcast lib w.now s.srh.ps bb from
          ok (settled (with_ps s ps)))
        | none ↦ elim p.b_chain [
          | some bcm ↦ (do
            ps ← handle_block_chain lib w.clock s.srh.ps bcm
            ok (settled (with_ps s ps)))
          | none ↦ ok (settled s)
        ]
      ]
    ]
  ]

  -- What a packet that was let in does: nothing unless exactly one of the seven messages is set.
  unfoldable pub receive_admitted : State → GossipPacket → Outcome State
  receive_admitted s p =
      let a = is_some p.rumor in
      let b = is_some p.status in
      let c = is_some p.message in
      let d = is_some p.d_request in
      let e = is_some p.d_reply in
      let f = is_some p.s_request in
      let g = is_some p.s_reply in
      if alone b (a ∷ c ∷ d ∷ e ∷ f ∷ g ∷ [])
      then elim p.status [
        | some st ↦ print_peers s >>= (λ shown. receives_status_from_peer w.coin w.random st from s)
        | none ↦ ok s
      ]
      else if alone a (b ∷ c ∷ d ∷ e ∷ f ∷ g ∷ [])
      then elim p.rumor [
        | some rumor ↦ receives_rumor_from_peer net w.seconds w.random rumor from s
        | none ↦ ok s
      ]
      else if alone c (a ∷ b ∷ d ∷ e ∷ f ∷ g ∷ [])
      then elim p.message [
        | some pm ↦ ok (receives_private_message_from_peer w.seconds pm s)
        | none ↦ ok s
      ]
      else if alone d (a ∷ b ∷ c ∷ e ∷ f ∷ g ∷ [])
      then elim p.d_request [ some dr ↦ ok (receives_data_request_from_peer dr s) | none ↦ ok s ]
      else if alone e (a ∷ b ∷ c ∷ d ∷ f ∷ g ∷ [])
      then elim p.d_reply [ some dr ↦ ok (receives_data_reply_from_peer lib dr s) | none ↦ ok s ]
      else if alone f (a ∷ b ∷ c ∷ d ∷ e ∷ g ∷ [])
      then elim p.s_request [ some sr ↦ receives_search_request_from_peer sr from s | none ↦ ok s ]
      else if alone g (a ∷ b ∷ c ∷ d ∷ e ∷ f ∷ [])
      then elim p.s_reply [ some sr ↦ receives_search_reply_from_peer sr s | none ↦ ok s ]
      else ok s

  -- The sender of a packet becomes a peer.
  unfoldable pub meet_sender : State → State
  unfolding add_peer
  meet_sender s = if not (already_know_peer s.gossipers from) then add_peer net s from else s

  unfoldable pub receive_from_known : State → GossipPacket → Outcome Received
  receive_from_known s p =
      if not (is_puzzle p)
      then (do
        (srh, verdict) ← handle_gossip_packet lib w.now w.clock w.time s.srh p from
        let gated = record s { srh = srh }
        elim verdict as (λ v. Outcome Received) [
          | allowed ↦ receive_admitted gated p >>= (λ t. ok (settled t))
          | denied ↦ ok (settled gated)
          | blocked ↦ ok (record { state = gated; matches = []; stopped = true })
        ])
      else receive_puzzle s p

  -- The body of the loop of `listenPeers`.
  unfoldable pub receive_packet : State → GossipPacket → Outcome Received
  receive_packet s p = receive_from_known (meet_sender s) p
