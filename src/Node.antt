-- ===== src/Node.antt =====
-- code/helper.go, code/filehandler.go and code/gossiper.go: the state of one gossiper.
-- Random choices, clock readings and the answers of the network library are arguments. The packets
-- sent are those of the connection in `PuzzlesState`, which is the same connection.
use blockchain_sybil_attack.Base.{
  ℕ, ◌%◌, Bool, true, ◌&&◌, ◌≡◌, ◌↔◌, Option, List, Text, Bytes, Map, Eq, nat_eq, text_eq, text_eqb,
  text_eqb_iff, get_elem?, length, arith,
}
use blockchain_sybil_attack.Base.Int.{ℤ, int_eqb, int_eqb_iff}
use blockchain_sybil_attack.Messages.{
  Address, RumorMessage, StatusPacket, SearchRequest, GossipPacket, Gossiper,
}
use blockchain_sybil_attack.Puzzles
use blockchain_sybil_attack.Puzzles.{PuzzlesState}
use blockchain_sybil_attack.Neighbors.{SybilResistanceHandler}

-- What the code takes from Go's network and text library: `resolve` is the text of
-- `net.ResolveUDPAddr`, `ip_text` that of `net.ParseIP`, `port_text` that of `strconv.Atoi`, read
-- back by `strconv.Itoa`.
pub record Net : Type 0 where
  pub resolve : Text → Address
  pub ip_text : Text → Text
  pub port_text : Text → Text

pub record RumorMessageKey : Type 0 where
  pub origin : Text
  pub id : ℤ

unfoldable pub key_eqb : RumorMessageKey → RumorMessageKey → Bool
key_eqb a b = text_eqb a.origin b.origin && int_eqb a.id b.id

pub key_eqb_iff : (a b : RumorMessageKey) → (key_eqb a b ≡ true) ↔ (a ≡ b)
unfolding key_eqb
key_eqb_iff a b = ground (arith, text_eqb_iff a.origin b.origin, int_eqb_iff a.id b.id)

instance abbrev pub key_eq : Eq RumorMessageKey
key_eq = record { eqb = key_eqb; eqb_iff = key_eqb_iff }

pub record StoredRumor : Type 0 where
  pub origin : Text
  pub id : ℤ
  pub text : Text
  pub time_added : ℤ

pub record StoredPm : Type 0 where
  pub origin : Text
  pub id : ℤ
  pub text : Text
  pub time_added : ℤ

-- The timer is an event of its own.
pub record Mongering : Type 0 where
  pub rumor : RumorMessage
  pub partner : Address

pub record P2pFile : Type 0 where
  pub file_name : Text
  pub size : ℕ
  pub metafile : Bytes
  pub meta_hash : Bytes
  pub chunks : Map Text Bytes

-- The timer is an event of its own; `channel` is the number of a channel.
pub record Download : Type 0 where
  pub hash : Text
  pub channel : ℕ

pub record CurrentSearchResult : Type 0 where
  pub file_name : Text
  pub metafile_hash : Bytes
  pub chunks_locations : Map ℕ (List Text)

-- `channels` are the channels of the downloads, each with what was sent on it and not yet received.
pub record State : Type 0 where
  pub me : Gossiper
  pub gossipers : List Gossiper
  pub vector_clock : StatusPacket
  pub msgs_seen : Map RumorMessageKey StoredRumor
  pub pending_acks : Map Text Mongering
  pub client_next_id : ℤ
  pub last_seqn_seen : Map Text ℤ
  pub next_hops : Map Text Address
  pub private_msgs : Map Text (List StoredPm)
  pub no_forward : Bool
  pub files : Map Text P2pFile
  pub downloads : Map Text Download
  pub channels : Map ℕ (List Bytes)
  pub search : Option (Map Text CurrentSearchResult)
  pub search_in_progress : Bool
  pub current_search : List Text
  pub search_to_retrieve : List Text
  pub search_received : List SearchRequest
  pub budget : ℕ
  pub srh : SybilResistanceHandler

-- `State.send`, which stamps the packet with the identifier of `PuzzlesState`.
unfoldable pub send : State → GossipPacket → Address → State
send s msg dest = record s { srh = record s.srh { ps = Puzzles.send s.srh.ps msg dest } }

-- `gossipers[rand.Intn(len(gossipers))]` for the random number `r`.
unfoldable pub pick_random_peer : State → ℕ → Option Gossiper
pick_random_peer s r = get_elem? s.gossipers (r % length s.gossipers)
