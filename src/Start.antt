-- ===== src/Start.antt =====
-- main of code/gossiper.go with newGossiper and parseOtherPeers of code/helper.go: the state in which
-- a gossiper starts. The sockets, the web server and the goroutines of the listeners are not part of
-- it; the goroutines of the timers are the events of the other files.
pub mod Ready
mod Tests
use blockchain_sybil_attack.Base.{
  ℕ, ◌+◌, Bool, false, none, List, [], ◌∷◌, ◌++◌, Text, ◌==◌, nat_eq, text_eq, codes, length,
  if◌then◌else◌, Outcome, ok, panic, fueled, index_out_of_range, ◌>>=◌,
}
use blockchain_sybil_attack.Base.Words.{split}
use blockchain_sybil_attack.Base.Int.{pos}
use blockchain_sybil_attack.Chain.Platform.{Platform, Time, RsaPublicKey}
use blockchain_sybil_attack.Chain.Ledger.{no_chain}
use blockchain_sybil_attack.Chain.Mining.{init_genesis}
use blockchain_sybil_attack.Messages.{Gossiper}
use blockchain_sybil_attack.Puzzles.{PuzzlesState}
use blockchain_sybil_attack.Neighbors.{no_neighbors, init_map}
use blockchain_sybil_attack.Node.{Net, State}
use blockchain_sybil_attack.Routing.{itoa}

-- The values of the flags, but for the ports of the client and of the page and for the period.
pub record Flags : Type 0 where
  pub gossip_ip_port : Text
  pub name : Text
  pub peers : Text
  pub noforward : Bool
  pub genesis : Bool

-- The fresh key, the rounds for mining and for the attempts, and their clocks.
pub record Supplies : Type 0 where
  pub key : RsaPublicKey
  pub tries : ℕ
  pub fuel : ℕ
  pub now : ℕ → Time
  pub clocks : ℕ → ℕ → ℕ

abbrev pub new_gossiper : Net → Text → Text → Gossiper
new_gossiper net address identifier = record {
  address = net.resolve address;
  identifier = identifier;
}

unfoldable pub gossipers_of : Net → ℕ → List Text → List Gossiper
unfolding itoa
gossipers_of net index [] = []
gossipers_of net index (address ∷ peers) =
    new_gossiper net address (codes "P" ++ itoa index) ∷ gossipers_of net (index + 1) peers

unfoldable pub parse_other_peers : Net → Text → List Gossiper
unfolding gossipers_of
parse_other_peers net arg = if arg == [] then [] else gossipers_of net 0 (split 95 arg)

-- The address of `me`; an address without a port is taken as a port.
unfoldable pub listening_address : Text → Text
listening_address ip_port =
    if length (split 58 ip_port) == 2 then ip_port else codes "127.0.0.1:" ++ ip_port

-- `strings.Split(*peers,"_")[0]`.
abbrev pub first_peer : List Text → Outcome Text
first_peer [] = panic index_out_of_range
first_peer (p ∷ peers) = ok p

-- The chain of a node, with its identifier and whether it has joined.
unfoldable pub start_puzzles : Net → Platform → Supplies → Flags → Outcome PuzzlesState
unfolding parse_other_peers
start_puzzles net lib w flags = do
  bc ←
      if flags.genesis
      then fueled (init_genesis lib 1 w.key w.tries w.fuel w.now w.clocks)
      else ok no_chain
  ok (record {
    my_id = if flags.genesis then 1 else 0;
    my_name = flags.name;
    priv_key = w.key;
    pub_key = w.key;
    joined = flags.genesis;
    local_chain = bc;
    conn = [];
    waiting = [];
    peers = parse_other_peers net flags.peers;
  })

unfoldable pub start : Net → Platform → Supplies → Flags → Outcome State
unfolding start_puzzles listening_address init_map
start net lib w flags = do
  ps ← start_puzzles net lib w flags
  watched ← first_peer (split 95 flags.peers)
  ok (record {
    me = new_gossiper net (listening_address flags.gossip_ip_port) flags.name;
    gossipers = parse_other_peers net flags.peers;
    vector_clock = record { want = [] };
    msgs_seen = [];
    pending_acks = [];
    client_next_id = pos 1;
    last_seqn_seen = [];
    next_hops = [];
    private_msgs = [];
    no_forward = flags.noforward;
    files = [];
    downloads = [];
    channels = [];
    search = none;
    search_in_progress = false;
    current_search = [];
    search_to_retrieve = [];
    search_received = [];
    budget = 0;
    srh = init_map (record { ps = ps; cn = no_neighbors }) watched;
  })
