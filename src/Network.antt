-- ===== src/Network.antt =====
-- Several nodes of code/puzzleshandler.go and the packets between them. Every node handles any
-- message at any time, forged, lost, doubled or out of order; only a chain must have been sent by one
-- of the nodes. The list `conn` of a node holds all that it has ever sent.
pub mod Effects
pub mod Sent
pub mod Handled
pub mod Shared
pub mod Forks
pub mod Gate
mod Tests
use blockchain_sybil_attack.Base.{
  ℕ, ◌≡◌, some, List, [], ◌∷◌, ◌==◌, nat_eq, if◌then◌else◌, Text, ◌⊎◌,
}
use blockchain_sybil_attack.Chain.Platform.{Platform}
use blockchain_sybil_attack.Messages.{Address, BlockChainMessage, Datagram}
use blockchain_sybil_attack.Puzzles.{PuzzlesState, expire_joining}
use blockchain_sybil_attack.Puzzles.Steps.{Step, joining, proposal, response, chain, broadcast}

abbrev pub System : Type 0
System = ℕ → PuzzlesState

abbrev pub update : System → ℕ → PuzzlesState → System
update s i ps j = if i == j then ps else s j

-- The packet is one of the list.
abbrev pub In : Datagram → List Datagram → Type 0
In d [] = ⊥
In d (e ∷ es) = (e ≡ d) ⊎ In d es

-- Some node has sent this chain.
abbrev pub WasSent : System → BlockChainMessage → Type 0
WasSent s bcm = (j : ℕ) × (d : Datagram) × In d (s j).conn × (d.packet.b_chain ≡ some bcm)

abbrev pub Delivered :
    {lib : Platform} {resolve : Text → Address} (s : System) {ps ps' : PuzzlesState}
    → Step lib resolve ps ps'
    → Type 0
Delivered s (chain clock bcm e) = WasSent s bcm
Delivered s (joining clock now joiner e) = Unit
Delivered s (proposal fuel clock pp from e) = Unit
Delivered s (response now pr from sent e) = Unit
Delivered s (broadcast now bb from e) = Unit

-- One node handles a message, or the timer of `expireJoining` fires at it.
pub data Move (lib : Platform) (resolve : Text → Address) (s : System) : System → Type 0 where
  handle :
      (i : ℕ) (ps' : PuzzlesState) (st : Step lib resolve (s i) ps')
      → Delivered s st
      → Move lib resolve s (update s i ps')
  expire : (i : ℕ) → Move lib resolve s (update s i (expire_joining (s i)))

pub data Reach (lib : Platform) (resolve : Text → Address) (s : System) : System → Type 0 where
  start : Reach lib resolve s s
  later : {t u : System} → Reach lib resolve s t → Move lib resolve t u → Reach lib resolve s u
