-- ===== src/Client/Packets.antt =====
-- The packet types of code/client/client.go, the gossiper's packet that each stands for, and what the
-- client and the gossiper use of the protobuf library.
use blockchain_sybil_attack.Base.{ℕ, ◌≡◌, Option, none, some, List, map, Text, Bytes}
use blockchain_sybil_attack.Base.Int.{ℤ}
use blockchain_sybil_attack.Messages
use blockchain_sybil_attack.Messages.{empty_packet}
use mathlib.Core.Option

pub record RumorMessage : Type 0 where
  pub origin : Text
  pub id : ℤ
  pub text : Text

pub record PrivateMessage : Type 0 where
  pub origin : Text
  pub id : ℤ
  pub text : Text
  pub dest : Text
  pub hop_limit : ℕ

pub record PeerStatus : Type 0 where
  pub identifier : Text
  pub next_id : ℤ

pub record StatusPacket : Type 0 where
  pub want : List PeerStatus

pub record DataRequest : Type 0 where
  pub origin : Text
  pub destination : Text
  pub hop_limit : ℕ
  pub file_name : Text
  pub hash_value : Bytes

pub record DataReply : Type 0 where
  pub origin : Text
  pub destination : Text
  pub hop_limit : ℕ
  pub file_name : Text
  pub hash_value : Bytes
  pub content : Bytes

pub record SearchRequest : Type 0 where
  pub origin : Text
  pub budget : ℕ
  pub keywords : List Text

pub record SearchResult : Type 0 where
  pub file_name : Text
  pub metafile_hash : Bytes
  pub chunk_map : List ℕ

pub record SearchReply : Type 0 where
  pub origin : Text
  pub destination : Text
  pub hop_limit : ℕ
  pub results : List SearchResult

pub record GossipPacket : Type 0 where
  pub node_id : ℕ
  pub rumor : Option RumorMessage
  pub status : Option StatusPacket
  pub message : Option PrivateMessage
  pub d_request : Option DataRequest
  pub d_reply : Option DataReply
  pub s_request : Option SearchRequest
  pub s_reply : Option SearchReply

-- `&GossipPacket{}`.
abbrev pub no_message : GossipPacket
no_message = record {
  node_id = 0;
  rumor = none;
  status = none;
  message = none;
  d_request = none;
  d_reply = none;
  s_request = none;
  s_reply = none;
}

-- The gossiper's fields that the client's types lack are left unset.
abbrev pub rumor_read : RumorMessage → Messages.RumorMessage
rumor_read m = record {
  origin = m.origin;
  id = m.id;
  text = m.text;
  last_ip = none;
  last_port = none;
}

abbrev pub message_read : PrivateMessage → Messages.PrivateMessage
message_read m = record {
  origin = m.origin;
  id = m.id;
  text = m.text;
  dest = m.dest;
  hop_limit = m.hop_limit;
}

abbrev pub peer_status_read : PeerStatus → Messages.PeerStatus
peer_status_read m = record { identifier = m.identifier; next_id = m.next_id }

abbrev pub status_read : StatusPacket → Messages.StatusPacket
status_read m = record { want = map peer_status_read m.want }

abbrev pub d_request_read : DataRequest → Messages.DataRequest
d_request_read m = record {
  origin = m.origin;
  destination = m.destination;
  hop_limit = m.hop_limit;
  file_name = m.file_name;
  hash_value = m.hash_value;
}

abbrev pub d_reply_read : DataReply → Messages.DataReply
d_reply_read m = record {
  origin = m.origin;
  destination = m.destination;
  hop_limit = m.hop_limit;
  file_name = m.file_name;
  hash_value = m.hash_value;
  content = m.content;
}

abbrev pub s_request_read : SearchRequest → Messages.SearchRequest
s_request_read m = record { origin = m.origin; budget = m.budget; keywords = m.keywords }

abbrev pub result_read : SearchResult → Messages.SearchResult
result_read m = record {
  file_name = m.file_name;
  metafile_hash = m.metafile_hash;
  chunk_map = m.chunk_map;
}

abbrev pub s_reply_read : SearchReply → Messages.SearchReply
s_reply_read m = record {
  origin = m.origin;
  destination = m.destination;
  hop_limit = m.hop_limit;
  results = map result_read m.results;
}

abbrev pub as_read : GossipPacket → Messages.GossipPacket
as_read p = record empty_packet {
  node_id = p.node_id;
  rumor = Option.map rumor_read p.rumor;
  status = Option.map status_read p.status;
  message = Option.map message_read p.message;
  d_request = Option.map d_request_read p.d_request;
  d_reply = Option.map d_reply_read p.d_reply;
  s_request = Option.map s_request_read p.s_request;
  s_reply = Option.map s_reply_read p.s_reply;
}

-- `protobuf.Encode` of the client's packets and `protobuf.Decode` into the gossiper's; `none` is an
-- error. The fields are numbered by their order, in which the client's are the gossiper's first ones,
-- so what was encoded is read with the other fields unset.
pub record Codec : Type 0 where
  pub encode : GossipPacket → Option Bytes
  pub decode : Bytes → Option Messages.GossipPacket
  pub read_back : (p : GossipPacket) (d : Bytes) → encode p ≡ some d → decode d ≡ some (as_read p)
