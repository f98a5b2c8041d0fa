-- ===== src/Neighbors.antt =====
-- The state of code/node_communication.go and of SybilResistanceHandler of code/sybilresistance.go:
-- the neighbours that a node watches, and the goroutines that watch them.
-- A goroutine of `identifyInactiveNodes` is a `Monitor`: it is in the list while it waits in its
-- `select`, and one event of its `select` is one call of `monitor_timeout` or of `deliver`. A monitor
-- that comes to the head of its loop while its neighbour is not active keeps `mu1` locked for ever. A
-- send on `MsgRecv` is received by the first monitor of that address; with none it blocks for ever.
use blockchain_sybil_attack.Base.{
  ℕ, ◌+◌, Bool, true, false, not, Option, none, some, List, [], ◌∷◌, ◌++◌, Text, Map, get, put,
  is_some, ◌==◌, nat_eq, text_eq, if◌then◌else◌,
}
use blockchain_sybil_attack.Messages.{IpMatchNodeId}
use blockchain_sybil_attack.Puzzles.{PuzzlesState}

abbrev pub attempts : ℕ
attempts = 2

pub record Monitor : Type 0 where
  pub key : Text
  pub c : ℕ

pub record CheckNeighbors : Type 0 where
  pub neighbors : Map Text ℕ
  pub active_neighbors : Map Text Bool
  pub monitors : List Monitor
  pub mu1_held : Bool

pub record SybilResistanceHandler : Type 0 where
  pub ps : PuzzlesState
  pub cn : CheckNeighbors

-- `createCheckNeighborsProtocol`.
abbrev pub no_neighbors : CheckNeighbors
no_neighbors = record { neighbors = []; active_neighbors = []; monitors = []; mu1_held = false }

-- `srh.cn.activeNeighbors[k] = v`.
unfoldable pub set_active : SybilResistanceHandler → Text → Bool → SybilResistanceHandler
set_active srh k v = record srh {
  cn = record srh.cn { active_neighbors = put srh.cn.active_neighbors k v };
}

unfoldable pub set_counter : SybilResistanceHandler → Text → ℕ → SybilResistanceHandler
set_counter srh k n = record srh { cn = record srh.cn { neighbors = put srh.cn.neighbors k n } }

-- `srh.cn.activeNeighbors[k]`, false for a missing key.
unfoldable pub is_active : SybilResistanceHandler → Text → Bool
is_active srh k = elim (get srh.cn.active_neighbors k) [ none ↦ false | some v ↦ v ]

-- The first monitor of the address takes the message and counts from 0 again.
unfoldable pub take_message : Text → List Monitor → Option (List Monitor)
take_message k [] = none
take_message k (m ∷ ms) =
    let rest = take_message k ms in
    if m.key == k
    then some (record m { c = 0 } ∷ ms)
    else elim rest [ none ↦ none | some ms' ↦ some (m ∷ ms') ]

-- `srh.cn.MsgRecv[k] <- id` with what the receiving monitor does next.
unfoldable pub deliver : SybilResistanceHandler → Text → Option SybilResistanceHandler
unfolding set_active
deliver srh k = elim (take_message k srh.cn.monitors) [
  | none ↦ none
  | some ms ↦ some (set_active (record srh { cn = record srh.cn { monitors = ms } }) k true)
]

-- The first match of the list of monitors, at its turn.
unfoldable pub without_monitor : Text → List Monitor → List Monitor
without_monitor k [] = []
without_monitor k (m ∷ ms) = let rest = without_monitor k ms in if m.key == k then ms else m ∷ rest

unfoldable pub counted : Text → List Monitor → Option ℕ
counted k [] = none
counted k (m ∷ ms) = if m.key == k then some m.c else counted k ms

unfoldable pub count_up : Text → List Monitor → List Monitor
count_up k [] = []
count_up k (m ∷ ms) =
    let rest = count_up k ms in if m.key == k then record m { c = m.c + 1 } ∷ ms else m ∷ rest

-- `go srh.identifyInactiveNodes(k)`.
unfoldable pub start_monitor : SybilResistanceHandler → Text → SybilResistanceHandler
unfolding is_active
start_monitor srh k =
    if is_active srh k
    then record srh {
      cn = record srh.cn { monitors = srh.cn.monitors ++ record { key = k; c = 0 } ∷ [] };
    }
    else record srh { cn = record srh.cn { mu1_held = true } }

-- The head of the loop of `identifyInactiveNodes`, after a wait.
unfoldable pub loop_head : SybilResistanceHandler → Text → SybilResistanceHandler
unfolding is_active
loop_head srh k = if is_active srh k then srh else record srh {
  cn = record srh.cn { monitors = without_monitor k srh.cn.monitors; mu1_held = true };
}

unfoldable pub init_map : SybilResistanceHandler → Text → SybilResistanceHandler
unfolding set_active set_counter start_monitor
init_map srh peer = start_monitor (set_counter (set_active srh peer true) peer 0) peer

-- One round of `updateMapWithMatches`.
unfoldable pub update_map_with_match :
    SybilResistanceHandler → IpMatchNodeId → SybilResistanceHandler
unfolding set_active set_counter start_monitor
update_map_with_match srh presp =
    if srh.cn.mu1_held
    then srh
    else start_monitor
        (if not (is_some (get srh.cn.active_neighbors presp.ip_addr))
          then set_counter (set_active srh presp.ip_addr true) presp.ip_addr 0
          else srh)
        presp.ip_addr
