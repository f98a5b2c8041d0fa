-- ===== src/Network/Gate.antt =====
-- What the gate of code/sybilresistance.go lets in at a node of a network.
use blockchain_sybil_attack.Base.{
  ℕ, ◌+◌, ◌≤◌, ◌<◌, ◌≡◌, refl, sym, ◌∙◌, true, false, some, List, [], ◌∷◌, ◌++◌, Text, ok, arith,
  inl, inr, Bool-cases, Option-cases, ◌==◌, nat_eq, ==_iff,
}
use blockchain_sybil_attack.Chain.Platform.{Platform, Time}
use blockchain_sybil_attack.Chain.Block.{Block, expiration, hash}
use blockchain_sybil_attack.Chain.Block.Work.{leading24, is_valid_iff}
use blockchain_sybil_attack.Chain.Ledger.{BlockChain, no_chain, block_of, contains_valid_node_id}
use blockchain_sybil_attack.Chain.Ledger.History.{latest}
use blockchain_sybil_attack.Chain.Ledger.Agreement.{In}
use blockchain_sybil_attack.Messages.{Address, GossipPacket}
use blockchain_sybil_attack.Neighbors.{SybilResistanceHandler}
use blockchain_sybil_attack.Sybil.{allowed, handle_gossip_packet}
use blockchain_sybil_attack.Sybil.Gate.{handle_gossip_packet-Admitted}
use blockchain_sybil_attack.Network.{System, Reach}
use blockchain_sybil_attack.Network.Shared.{Shared, Descends, outside, inside, Reach-Shared}

-- The newest block of an identifier is a block of the ledger, under this identifier.
latest-In : (h : List Block) (id : ℕ) (b : Block) → latest h id ≡ some b → In b h × (b.node_id ≡ id)
latest-In [] id b e = absurd (ground arith)
latest-In (c ∷ h) id b e = elim (Bool-cases (c.node_id == id)) [
  | inl here ↦
      let same : c ≡ b = ground arith in (inl same, rw (← same) ((==_iff c.node_id id).0 here))
  | inr other ↦ let (there, named) = latest-In h id b (ground arith) in (inr there, named)
]

-- A block of the ledger of the chain is mined for the identifier, and is no older than the expiration.
pub record MinedFor (lib : Platform) (now : ℕ) (g : Block) (bc : BlockChain) (id : ℕ) : Type 0 where
  pub chain : Descends lib g bc
  pub block : Block
  pub listed : In block (chain.newer ++ g ∷ [])
  pub named : block.node_id ≡ id
  pub fresh : now ≤ block.timestamp.instant + expiration
  pub worked : leading24 (hash lib block) < 2

module _ (lib : Platform) (now : ℕ) (g : Block) where
  no_chain-invalid : (id : ℕ) → contains_valid_node_id lib now no_chain id ≡ false
  unfolding contains_valid_node_id block_of
  no_chain-invalid id = refl

  valid-MinedFor :
      (bc : BlockChain) (id : ℕ)
      → Descends lib g bc
      → contains_valid_node_id lib now bc id ≡ true
      → MinedFor lib now g bc id
  unfolding contains_valid_node_id
  valid-MinedFor bc id x valid = elim (Option-cases (block_of bc id)) [
    | inl missing ↦ absurd (ground arith)
    | inr (b, here) ↦
        let (listed, named) =
          latest-In (x.newer ++ g ∷ []) id b (sym (x.ledger.same_blocks id) ∙ here) in
        let (fresh, worked) = (is_valid_iff lib now b).0 (ground arith) in
        record {
          chain = x;
          block = b;
          listed = listed;
          named = named;
          fresh = fresh;
          worked = worked;
        }
  ]

  -- In a network of nodes that each have no chain, or one that stems from one genesis block, and have
  -- sent only such chains, whatever messages they handle without a panic, except that a chain must have
  -- been sent by a node, and whatever joinings expire: a packet that a node lets in names an identifier
  -- of a block in the node's ledger, which starts with the genesis block; the hash of this block has
  -- the zero bits that mining asks for, and it is no older than the expiration.
  pub admitted_was_mined :
      (resolve : Text → Address) (s t : System) (i : ℕ) (clock : ℕ → ℕ) (time : Time)
      (srh srh' : SybilResistanceHandler) (gp : GossipPacket) (from : Address)
      → Shared lib g s
      → Reach lib resolve s t
      → srh.ps ≡ t i
      → handle_gossip_packet lib now clock time srh gp from ≡ ok (srh', allowed)
      → MinedFor lib now g (t i).local_chain gp.node_id
  admitted_was_mined resolve s t i clock time srh srh' gp from x reach here let_in =
      let admitted = handle_gossip_packet-Admitted lib now clock time srh gp from let_in in
      let member : contains_valid_node_id lib now (t i).local_chain gp.node_id ≡ true =
        rw here at admitted.member in
      elim ((Reach-Shared lib g resolve s t x reach).nodes i) [
        | outside not_joined empty ↦
            absurd
              (let none_valid = rw empty at member in ground (arith, no_chain-invalid gp.node_id))
        | inside chain ↦ valid-MinedFor (t i).local_chain gp.node_id chain member
      ]
