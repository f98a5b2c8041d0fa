-- ===== src/Dispatch/Clients.antt =====
-- The loop of listenClient in code/gossiper.go: what one packet of the client does, and the handlers
-- of the client's messages.
use blockchain_sybil_attack.Base.{
  ℕ, take, Option, none, some, List, [], ◌∷◌, Text, Bytes, ◌==◌, is_some, if◌then◌else◌, Outcome,
  ok, panic, fatal, ◌>>=◌,
}
use blockchain_sybil_attack.Base.Int.{ℤ, negsuc, int_eq}
use blockchain_sybil_attack.Chain.Platform.{Platform}
use blockchain_sybil_attack.Messages.{PrivateMessage, SearchRequest, GossipPacket}
use blockchain_sybil_attack.Node.{State}
use blockchain_sybil_attack.Routing.{print_peers}
use blockchain_sybil_attack.Routing.Private.{send_private_message_cli}
use blockchain_sybil_attack.Gossip.Spreading.{receives_rumor_from_client}
use blockchain_sybil_attack.Files.{add_file}
use blockchain_sybil_attack.Files.Transfer.Fetching.{Fetch, receives_data_request_from_client}
use blockchain_sybil_attack.Search.{begin_search}
use blockchain_sybil_attack.Dispatch.{alone}

-- The goroutine that a handler starts: a download, or the ticks of a search.
pub data Started : Type 0 where
  nothing : Started
  fetching : Fetch → Started
  searching : (keywords : List Text) → (budget : ℕ) → Started

pub record Handled : Type 0 where
  pub state : State
  pub started : Started

abbrev pub quiet : State → Handled
quiet s = record { state = s; started = nothing }

abbrev pub with_fetch : State → Option (State × Fetch) → Handled
with_fetch s none = quiet s
with_fetch s (some (t, f)) = record { state = t; started = fetching f }

-- What the handling of a packet takes from outside: what `os.Open` and one `file.Read` of at most
-- 2000000 bytes give for a name, the clock in seconds, a random number, and a new channel's number.
pub record Desk : Type 0 where
  pub disk : Text → Option Bytes
  pub seconds : ℤ
  pub random : ℕ
  pub channel : ℕ

-- `log.Fatal` on an error.
abbrev pub read_file : Option Bytes → Outcome Bytes
read_file none = panic fatal
read_file (some content) = ok content

module _ (lib : Platform) (desk : Desk) where
  -- `addFile` with the file that it opens.
  unfoldable pub add_file_named : Text → State → Outcome State
  unfolding add_file
  add_file_named name s = do content ← read_file (desk.disk name); add_file lib s name content

  unfoldable pub receives_private_message_from_client : PrivateMessage → State → Outcome State
  unfolding send_private_message_cli
  receives_private_message_from_client pm s =
      if pm.id == negsuc 0
      then add_file_named pm.text s
      else ok (send_private_message_cli desk.seconds s (record pm { origin = s.me.identifier })).0

  unfoldable pub receives_search_request_from_client : SearchRequest → State → Handled
  unfolding begin_search
  receives_search_request_from_client sr s = record {
    state = begin_search s sr.budget;
    started = if s.search_in_progress then nothing else searching sr.keywords sr.budget;
  }

  -- The body of the loop of `listenClient`.
  unfoldable pub receive_client_packet : State → GossipPacket → Outcome Handled
  receive_client_packet s p =
      let a = is_some p.rumor in
      let b = is_some p.status in
      let c = is_some p.message in
      let d = is_some p.d_request in
      let e = is_some p.d_reply in
      let f = is_some p.s_request in
      let g = is_some p.s_reply in
      if alone b (a ∷ c ∷ d ∷ e ∷ f ∷ g ∷ [])
      then ok (quiet s)
      else if alone c (a ∷ b ∷ d ∷ e ∷ f ∷ g ∷ [])
      then elim p.message [
        | some pm ↦ (do t ← receives_private_message_from_client pm s; ok (quiet t))
        | none ↦ ok (quiet s)
      ]
      else if alone a (b ∷ c ∷ d ∷ e ∷ f ∷ g ∷ [])
      then elim p.rumor [
        | some rumor ↦ (do
          shown ← print_peers s
          t ← receives_rumor_from_client desk.seconds desk.random rumor s
          ok (quiet t))
        | none ↦ ok (quiet s)
      ]
      else if alone d (a ∷ b ∷ c ∷ e ∷ f ∷ g ∷ [])
      then elim p.d_request [
        | some dr ↦ (do
          found ← receives_data_request_from_client dr s desk.channel
          ok (with_fetch s found))
        | none ↦ ok (quiet s)
      ]
      else if alone e (a ∷ b ∷ c ∷ d ∷ f ∷ g ∷ [])
      then ok (quiet s)
      else if alone f (a ∷ b ∷ c ∷ d ∷ e ∷ g ∷ [])
      then elim p.s_request [
        | some sr ↦ ok (receives_search_request_from_client sr s)
        | none ↦ ok (quiet s)
      ]
      else ok (quiet s)

  -- What the loop does with the bytes of a datagram, of which it reads 1024 at most.
  unfoldable pub read_client_packet :
      (Bytes → Option GossipPacket) → Bytes → State → Outcome Handled
  unfolding receive_client_packet
  read_client_packet decode packet_bytes s = elim (decode (take 1024 packet_bytes)) [
    | none ↦ ok (quiet s)
    | some packet ↦ receive_client_packet s packet
  ]
