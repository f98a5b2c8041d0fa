-- ===== src/Routing/Private.antt =====
-- Private messages of code/helper.go and code/gossiper.go: what is stored, sent and forwarded.
use blockchain_sybil_attack.Base.{
  ℕ, ◌+◌, ◌-◌, ◌%◌, ◌^◌, Bool, true, false, not, none, some, List, [], ◌∷◌, ◌++◌, Text, get, put,
  ◌==◌, nat_eq, text_eq, ltb, if◌then◌else◌,
}
use blockchain_sybil_attack.Base.Int.{ℤ, pos, ltb_ℤ, int_eq}
use blockchain_sybil_attack.Messages.{PrivateMessage, empty_packet}
use blockchain_sybil_attack.Node.{StoredPm, State, send}

abbrev pub pms_of : State → Text → List StoredPm
pms_of s peer = elim (get s.private_msgs peer) [ none ↦ [] | some pms ↦ pms ]

-- `state.privateMsgs[peer] = append(state.privateMsgs[peer], spm)`.
unfoldable pub store_pm : State → Text → StoredPm → State
store_pm s peer spm = record s {
  private_msgs = put s.private_msgs peer (pms_of s peer ++ spm ∷ []);
}

-- The text sent and stored by `sendPrivateMessage` and `sendPrivateMessageCLI`.
unfoldable pub send_private_message_cli : ℤ → State → PrivateMessage → State × Bool
unfolding send store_pm
send_private_message_cli now s pm = elim (get s.next_hops pm.dest) [
  | none ↦ (s, false)
  | some next_hop ↦ (
    store_pm (send s (record empty_packet { message = some pm }) next_hop) pm.dest
        (record { origin = s.me.identifier; id = pm.id; text = pm.text; time_added = now }),
    true,
  )
]

unfoldable pub send_private_message : ℤ → State → Text → Text → State × Bool
unfolding send_private_message_cli
send_private_message now s content dest =
    send_private_message_cli now s
      (record { origin = s.me.identifier; id = pos 0; text = content; dest = dest; hop_limit = 10 })

unfoldable pub receive_private_message : ℤ → State → PrivateMessage → State
unfolding store_pm
receive_private_message now s pm =
    store_pm s pm.origin
      (record { origin = pm.origin; id = pm.id; text = pm.text; time_added = now })

-- `pm.HopLimit -1` of a `uint32`.
abbrev pub one_hop_less : ℕ → ℕ
one_hop_less n = (n + 2 ^ 32 - 1) % 2 ^ 32

unfoldable pub forward_private_message : State → PrivateMessage → State × Bool
unfolding send
forward_private_message s pm = elim (get s.next_hops pm.dest) [
  | none ↦ (s, false)
  | some next_hop ↦
      if ltb 0 (one_hop_less pm.hop_limit)
      then (
        send s
            (record empty_packet {
              message = some (record pm { hop_limit = one_hop_less pm.hop_limit });
            })
            next_hop,
        true,
      )
      else (s, false)
]

unfoldable pub receives_private_message_from_peer : ℤ → PrivateMessage → State → State
receives_private_message_from_peer now pm s =
    if pm.dest == s.me.identifier
    then receive_private_message now s pm
    else if not s.no_forward
    then (forward_private_message s pm).0
    else s

unfoldable pub pms_since : ℤ → List StoredPm → List StoredPm
pms_since time [] = []
pms_since time (msg ∷ rest) =
    let msgs = pms_since time rest in if not (ltb_ℤ msg.time_added time) then msg ∷ msgs else msgs

unfoldable pub get_private_msgs_from : State → ℤ → Text → List StoredPm
get_private_msgs_from s time peer = pms_since time (pms_of s peer)
