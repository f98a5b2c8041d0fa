-- ===== src/Messages.antt =====
-- The messages of code/helper.go, code/filehandler.go, code/puzzleshandler.go,
-- code/node_communication.go and code/digital_signatures.go, and the packet that carries one.
-- An address is the text that its `String` method returns; a pointer that may be nil is an `Option`.
use blockchain_sybil_attack.Base.{ℕ, List, Option, none, Text, Bytes}
use blockchain_sybil_attack.Base.Int.{ℤ}
use blockchain_sybil_attack.Chain.Platform.{Time}
use blockchain_sybil_attack.Chain.Block.{Block}
use blockchain_sybil_attack.Chain.Ledger.{BlockChain}

abbrev pub Address : Type 0
Address = Text

pub record RumorMessage : Type 0 where
  pub origin : Text
  pub id : ℤ
  pub text : Text
  pub last_ip : Option Text
  pub last_port : Option Text

pub record PrivateMessage : Type 0 where
  pub origin : Text
  pub id : ℤ
  pub text : Text
  pub dest : Text
  pub hop_limit : ℕ

pub record PeerStatus : Type 0 where
  pub identifier : Text
  pub next_id : ℤ

pub record StatusPacket : Type 0 where
  pub want : List PeerStatus

pub record DataRequest : Type 0 where
  pub origin : Text
  pub destination : Text
  pub hop_limit : ℕ
  pub file_name : Text
  pub hash_value : Bytes

pub record DataReply : Type 0 where
  pub origin : Text
  pub destination : Text
  pub hop_limit : ℕ
  pub file_name : Text
  pub hash_value : Bytes
  pub content : Bytes

pub record SearchRequest : Type 0 where
  pub origin : Text
  pub budget : ℕ
  pub keywords : List Text

pub record SearchResult : Type 0 where
  pub file_name : Text
  pub metafile_hash : Bytes
  pub chunk_map : List ℕ

pub record SearchReply : Type 0 where
  pub origin : Text
  pub destination : Text
  pub hop_limit : ℕ
  pub results : List SearchResult

pub record PuzzleProposal : Type 0 where
  pub origin : Text
  pub node_id : ℕ
  pub timestamp : Time
  pub previous_hash : Bytes

pub record PuzzleResponse : Type 0 where
  pub origin : Text
  pub destination : Text
  pub created_block : Option Block

pub record BlockBroadcast : Type 0 where
  pub origin : Text
  pub new_block : Option Block

pub record BlockChainMessage : Type 0 where
  pub chain : Option BlockChain

pub record InactiveNode : Type 0 where
  pub ip_addr : Text

pub record SignedDocument : Type 0 where
  pub hashed_data : Bytes
  pub encrypted_data : Bytes

pub record IpMatchNodeId : Type 0 where
  pub ip_addr : Text
  pub node_id : ℕ

pub record GossipPacket : Type 0 where
  pub node_id : ℕ
  pub rumor : Option RumorMessage
  pub status : Option StatusPacket
  pub message : Option PrivateMessage
  pub d_request : Option DataRequest
  pub d_reply : Option DataReply
  pub s_request : Option SearchRequest
  pub s_reply : Option SearchReply
  pub p_proposal : Option PuzzleProposal
  pub p_response : Option PuzzleResponse
  pub b_broadcast : Option BlockBroadcast
  pub b_chain : Option BlockChainMessage
  pub in_node : Option InactiveNode
  pub digital_sign : Option SignedDocument

-- `&GossipPacket{}`.
abbrev pub empty_packet : GossipPacket
empty_packet = record {
  node_id = 0;
  rumor = none;
  status = none;
  message = none;
  d_request = none;
  d_reply = none;
  s_request = none;
  s_reply = none;
  p_proposal = none;
  p_response = none;
  b_broadcast = none;
  b_chain = none;
  in_node = none;
  digital_sign = none;
}

-- A packet written to the connection, and its destination.
pub record Datagram : Type 0 where
  pub packet : GossipPacket
  pub dest : Address

pub record Gossiper : Type 0 where
  pub address : Address
  pub identifier : Text
