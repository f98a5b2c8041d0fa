-- ===== src/Network/Sent.antt =====
-- The chains in the packets that code/puzzleshandler.go writes to the connection.
use blockchain_sybil_attack.Base.{
  ◌≡◌, Bool, true, false, not, some, List, [], ◌∷◌, ◌++◌, Text, delete, ◌==◌, nat_eq, text_eq,
  if◌then◌else◌, arith, All,
}
use blockchain_sybil_attack.Chain.Block.{Block}
use blockchain_sybil_attack.Chain.Ledger.{BlockChain}
use blockchain_sybil_attack.Messages.{Address, Datagram, GossipPacket, Gossiper, PuzzleResponse}
use blockchain_sybil_attack.Puzzles.{
  PuzzlesState, add_new_gossiper, send, send_block_to, broadcast_block, send_block_chain, admit,
}

-- The chain that the packet carries, if any, has the property.
abbrev pub ChainOf : (BlockChain → Type 0) → GossipPacket → Type 0
ChainOf P p = (c : BlockChain) → p.b_chain ≡ some (record { chain = some c }) → P c

abbrev pub Carries : (BlockChain → Type 0) → List Datagram → Type 0
Carries P = All (λ d. ChainOf P d.packet)

module _ (P : BlockChain → Type 0) where
  Carries-append : (ds es : List Datagram) → Carries P ds → Carries P es → Carries P (ds ++ es)
  Carries-append [] es c d = d
  Carries-append (x ∷ ds) es (c, cs) d = (c, Carries-append ds es cs d)

  pub send-Carries :
      (ps : PuzzlesState) (msg : GossipPacket) (dest : Address)
      → ChainOf P msg
      → Carries P ps.conn
      → Carries P (send ps msg dest).conn
  unfolding send
  send-Carries ps msg dest m c = Carries-append ps.conn _ c (m, tt)

  either-Carries :
      (t : Bool) (x y : PuzzlesState)
      → Carries P x.conn
      → Carries P y.conn
      → Carries P (if t then x else y).conn
  either-Carries true x y c d = c
  either-Carries false x y c d = d

  send_block_to-Carries :
      (ps : PuzzlesState) (msg : GossipPacket) (from : Address) (peers : List Gossiper)
      → ChainOf P msg
      → Carries P ps.conn
      → Carries P (send_block_to ps msg from peers).conn
  unfolding send_block_to
  send_block_to-Carries ps msg from [] m c = c
  send_block_to-Carries ps msg from (p ∷ peers) m c =
      send_block_to-Carries (if not (p.address == from) then send ps msg p.address else ps) msg from
        peers m
        (either-Carries (not (p.address == from)) _ ps (send-Carries ps msg p.address m c) c)

  pub broadcast_block-Carries :
      (ps : PuzzlesState) (b : Block) (from : Address)
      → Carries P ps.conn
      → Carries P (broadcast_block ps b from).conn
  unfolding broadcast_block
  broadcast_block-Carries ps b from c =
      send_block_to-Carries ps _ from ps.peers (λ d e. absurd (ground arith)) c

  pub add_new_gossiper-conn :
      (resolve : Text → Address) (ps : PuzzlesState) (a : Address) (name : Text)
      → (add_new_gossiper resolve ps a name).conn ≡ ps.conn
  unfolding add_new_gossiper
  add_new_gossiper-conn resolve ps a name = ground arith

  pub admit-Carries :
      (resolve : Text → Address) (ps : PuzzlesState) (pr : PuzzleResponse) (b : Block)
      (from : Address)
      → P (admit resolve ps pr b from).local_chain
      → Carries P ps.conn
      → Carries P (admit resolve ps pr b from).conn
  unfolding admit send_block_chain
  admit-Carries resolve ps pr b from good c =
      let freed = record ps { waiting = delete ps.waiting from } in
      let met = add_new_gossiper resolve freed from pr.origin in
      let told = broadcast_block met b from in
      let before : Carries P met.conn = rw (add_new_gossiper-conn resolve freed from pr.origin) c in
      let kept : P told.local_chain = unfold send in good in
      send-Carries told _ from
        (λ d e. let same : d ≡ told.local_chain = ground arith in rw same kept)
        (broadcast_block-Carries met b from before)
