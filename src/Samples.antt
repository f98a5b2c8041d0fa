-- ===== src/Samples.antt =====
-- Concrete data for the tests: a platform whose digest is 31 zero bytes and the sum of the data, so
-- that any fresh block passes the proof of work, and a chain of two blocks.
use blockchain_sybil_attack.Base.{
  ℕ, ◌+◌, ◌%◌, ◌≡◌, refl, [], ◌∷◌, ◌++◌, some, none, Bytes, AreBytes, replicate, text_eqb, Text,
  get, List, codes, true, false, arith, little_endian, put, ok, panic, Outcome,
}
use blockchain_sybil_attack.Chain.Platform.{Platform, Time, RsaPublicKey}
use blockchain_sybil_attack.Chain.Block.{
  Block, hash, is_valid, expired, enough_zeros, all_zero, all_zero_digits, binary_digits, get_bytes,
  pub_key_to_bytes,
}
use blockchain_sybil_attack.Chain.Ledger.{
  BlockChain, add_block, matches_last, store_block, stored_in, add_node_id_to_list, without_id,
  no_chain,
}
use blockchain_sybil_attack.Messages.{
  Address, RumorMessage, PuzzleProposal, PuzzleResponse, IpMatchNodeId,
}
use blockchain_sybil_attack.Puzzles.{PuzzlesState, admit, try_admit, handle_puzzle_response}
use blockchain_sybil_attack.Base.Int.{pos}
use blockchain_sybil_attack.Neighbors.{no_neighbors}
use blockchain_sybil_attack.Node.{Net, State}
use blockchain_sybil_attack.Chain.Mining.{genesis_chain}
use blockchain_sybil_attack.Chain.Mining.Genesis.{genesis_chain-IsLedger}
use blockchain_sybil_attack.Chain.Ledger.History.{IsLedger, add_block-IsLedger}

unfoldable pub sum : Bytes → ℕ
sum [] = 0
sum (b ∷ bs) = b + sum bs

abbrev pub digest : Bytes → Bytes
digest d = replicate 31 0 ++ (sum d % 256) ∷ []

pub digest_bytes : (d : Bytes) → AreBytes (digest d)
digest_bytes d = omega arith

pub sum_single : (n : ℕ) → sum (n ∷ []) ≡ n
unfolding sum
sum_single n = omega arith

abbrev pub toy : Platform
toy = record {
  sha256 = digest;
  sha256_length = λ d. refl;
  sha256_bytes = digest_bytes;
  gob_time = λ t. t.instant % 256 ∷ t.zone % 256 ∷ [];
  gob_int = λ n. n ∷ [];
  gob_int_decode = λ d. sum d;
  gob_int_back = λ n. sum_single n;
  sign = λ key d. some d;
  verify = λ key d s. text_eqb d s;
}

abbrev pub noon : Time
noon = record { instant = 5; zone = 0 }

abbrev pub owner : RsaPublicKey
owner = record { modulus = 3; exponent = 65537 }

abbrev pub first_block : Block
first_block = record {
  node_id = 1;
  timestamp = noon;
  pub_key = record { n = 3 ∷ []; e = 65537 };
  nonce = 0 ∷ 0 ∷ 0 ∷ 0 ∷ 0 ∷ 0 ∷ 0 ∷ 0 ∷ [];
  previous_hash = 7 ∷ [];
}

abbrev pub second_block : Block
second_block = record {
  node_id = 2;
  timestamp = noon;
  pub_key = record { n = 4 ∷ []; e = 65537 };
  nonce = 0 ∷ 0 ∷ 0 ∷ 0 ∷ 0 ∷ 0 ∷ 0 ∷ 0 ∷ [];
  previous_hash = hash toy first_block;
}

abbrev pub one_block_chain : BlockChain
one_block_chain = genesis_chain 1 first_block

abbrev pub one_block_chain-IsLedger : IsLedger toy (first_block ∷ []) one_block_chain
one_block_chain-IsLedger = genesis_chain-IsLedger toy first_block

pub first_block_valid : is_valid toy 7 first_block ≡ true
unfolding is_valid expired enough_zeros all_zero all_zero_digits binary_digits hash get_bytes
    pub_key_to_bytes little_endian
first_block_valid = refl

pub second_block_valid : is_valid toy 7 second_block ≡ true
unfolding is_valid expired enough_zeros all_zero all_zero_digits binary_digits hash get_bytes
    pub_key_to_bytes little_endian
second_block_valid = refl

abbrev pub two_block_chain : BlockChain
two_block_chain = record {
  blocks_per_node_id = some ((1, first_block) ∷ (2, second_block) ∷ []);
  ordered_nodes_ids = 1 ∷ 2 ∷ [];
  last_block = some second_block;
}

pub second_block_added : add_block toy 7 one_block_chain second_block ≡ ok (two_block_chain, true)
unfolding add_block matches_last store_block stored_in add_node_id_to_list without_id genesis_chain
    put is_valid expired enough_zeros all_zero all_zero_digits binary_digits hash get_bytes
    pub_key_to_bytes little_endian sum text_eqb
second_block_added = refl

pub two_block_chain-IsLedger : IsLedger toy (second_block ∷ first_block ∷ []) two_block_chain
unfolding is_valid expired enough_zeros all_zero all_zero_digits binary_digits hash get_bytes
    pub_key_to_bytes little_endian sum text_eqb
two_block_chain-IsLedger =
    add_block-IsLedger toy 7 (first_block ∷ []) one_block_chain second_block {added = true}
      one_block_chain-IsLedger second_block_added

-- The text of an address is its own.
abbrev pub same_address : Text → Address
same_address a = a

abbrev pub home : Address
home = codes "10.0.0.2:5000"

abbrev pub sponsor : PuzzlesState
sponsor = record {
  my_id = 1;
  my_name = codes "A";
  priv_key = owner;
  pub_key = owner;
  joined = true;
  local_chain = one_block_chain;
  conn = [];
  waiting = [];
  peers = [];
}

abbrev pub newcomer : PuzzlesState
newcomer = record sponsor { my_id = 0; my_name = codes "B"; joined = false; local_chain = no_chain }

abbrev pub asked_home : PuzzleProposal
asked_home = record {
  origin = codes "A";
  node_id = 2;
  timestamp = noon;
  previous_hash = hash toy first_block;
}

-- `sponsor` while it waits for the answer of `home`.
abbrev pub waiting_sponsor : PuzzlesState
waiting_sponsor = record sponsor { waiting = (home, asked_home) ∷ [] }

abbrev pub good_answer : PuzzleResponse
good_answer = record {
  origin = codes "B";
  destination = codes "A";
  created_block = some second_block;
}

abbrev pub admitted_sponsor : PuzzlesState
admitted_sponsor =
    admit same_address (record waiting_sponsor { local_chain = two_block_chain }) good_answer
      second_block home

abbrev pub home_match : List IpMatchNodeId
home_match = record { ip_addr = home; node_id = 2 } ∷ []

pub home_admitted :
    handle_puzzle_response toy same_address 7 waiting_sponsor good_answer home
    ≡ ok (admitted_sponsor, home_match)
unfolding handle_puzzle_response try_admit get text_eqb hash get_bytes pub_key_to_bytes
    little_endian
home_admitted = rw second_block_added refl

abbrev pub net : Net
net = record { resolve = same_address; ip_text = λ a. a; port_text = λ a. a }

-- A gossiper that knows one peer and has its first rumor.
abbrev pub gossiper : State
gossiper = record {
  me = record { address = codes "10.0.0.1:5000"; identifier = codes "A" };
  gossipers = record { address = home; identifier = codes "B" } ∷ [];
  vector_clock = record { want = record { identifier = codes "B"; next_id = pos 2 } ∷ [] };
  msgs_seen =
      (
        record { origin = codes "B"; id = pos 1 },
        record { origin = codes "B"; id = pos 1; text = codes "hi"; time_added = pos 0 },
      )
      ∷ [];
  pending_acks = [];
  client_next_id = pos 1;
  last_seqn_seen = (codes "B", pos 1) ∷ [];
  next_hops = (codes "B", home) ∷ [];
  private_msgs = [];
  no_forward = false;
  files = [];
  downloads = [];
  channels = [];
  search = none;
  search_in_progress = false;
  current_search = [];
  search_received = [];
  search_to_retrieve = [];
  budget = 0;
  srh = record { ps = sponsor; cn = no_neighbors };
}

abbrev pub next_rumor : RumorMessage
next_rumor = record {
  origin = codes "B";
  id = pos 2;
  text = codes "again";
  last_ip = none;
  last_port = none;
}

-- The state of a handler's result, which is `gossiper` when it panics.
abbrev pub result : Outcome State → State
result (ok s) = s
result (panic p) = gossiper
