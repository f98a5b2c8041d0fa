-- ===== src/Sybil/Gate.antt =====
-- What `handleGossipPacket` of code/sybilresistance.go lets in.
use blockchain_sybil_attack.Base.{
  ℕ, ◌≡◌, ◌≢◌, ◌⊎◌, refl, Bool, true, false, not, ◌&&◌, Option, none, some, Text, get-put, is_some,
  ◌==◌, ==_iff, ==_refl, nat_eq, text_eq, if◌then◌else◌, Outcome, ok, panic, arith, inl, inr,
  Option-cases, Bool-cases,
}
use blockchain_sybil_attack.Chain.Platform.{Platform, Time}
use blockchain_sybil_attack.Chain.Block.{Block, bc_pub_key_to_rsa_pub_key}
use blockchain_sybil_attack.Chain.Ledger.{BlockChain, block_of, contains_valid_node_id}
use blockchain_sybil_attack.Messages.{Address, InactiveNode, SignedDocument, GossipPacket}
use blockchain_sybil_attack.Puzzles.{PuzzlesState, handle_joining}
use blockchain_sybil_attack.Neighbors.{
  SybilResistanceHandler, set_active, is_active, take_message, deliver,
}
use blockchain_sybil_attack.Sybil.{
  allowed, denied, find_public_key_for_corresponding_node, validate_peer, note_inactive,
  from_member, handle_gossip_packet,
}

-- The notice carries a signature that verifies with the key of the block of node `id`.
abbrev pub Verifies : Platform → BlockChain → ℕ → SignedDocument → Type 0
Verifies lib bc id signed =
    (b : Block) × (block_of bc id ≡ some b)
    × (lib.verify (bc_pub_key_to_rsa_pub_key lib b.pub_key) signed.hashed_data signed.encrypted_data
        ≡ true)

-- What the packet carries besides is no notice, or a notice that verifies.
abbrev pub NoticeIsGood :
    Platform → BlockChain → ℕ → Option InactiveNode → Option SignedDocument → Type 0
NoticeIsGood lib bc id none s = Unit {0}
NoticeIsGood lib bc id (some node) none = Unit {0}
NoticeIsGood lib bc id (some node) (some signed) = Verifies lib bc id signed

pub record Admitted (lib : Platform) (now : ℕ) (srh : SybilResistanceHandler) (gp : GossipPacket)
    (from : Address) : Type 0 where
  pub foreign : gp.node_id ≢ srh.ps.my_id
  pub member : contains_valid_node_id lib now srh.ps.local_chain gp.node_id ≡ true
  pub active : is_active srh from ≡ true
  pub watched : is_some (take_message from srh.cn.monitors) ≡ true
  pub notice : NoticeIsGood lib srh.ps.local_chain gp.node_id gp.in_node gp.digital_sign

pub is_active-set_active :
    (srh : SybilResistanceHandler) (k j : Text) (v : Bool)
    → is_active (set_active srh k v) j ≡ (if k == j then v else is_active srh j)
unfolding is_active set_active
is_active-set_active srh k j v = ground (arith, get-put srh.cn.active_neighbors k j v)

pub is_active-set_self :
    (srh : SybilResistanceHandler) (k : Text) (v : Bool) → is_active (set_active srh k v) k ≡ v
is_active-set_self srh k v = rw (is_active-set_active, ==_refl)

module _ (lib : Platform) where
  pub same_ps-deliver :
      (srh : SybilResistanceHandler) (k : Text) {srh' : SybilResistanceHandler}
      → deliver srh k ≡ some srh'
      → srh'.ps ≡ srh.ps
  unfolding deliver
  same_ps-deliver srh k e = ground arith

  watched-deliver :
      (srh : SybilResistanceHandler) (k : Text) {srh' : SybilResistanceHandler}
      → deliver srh k ≡ some srh'
      → is_some (take_message k srh.cn.monitors) ≡ true
  unfolding deliver
  watched-deliver srh k e = ground arith

  validate_peer-Verifies :
      (srh : SybilResistanceHandler) (signed : SignedDocument) (id : ℕ)
      → validate_peer lib srh (some signed) id ≡ ok true
      → Verifies lib srh.ps.local_chain id signed
  unfolding validate_peer find_public_key_for_corresponding_node
  validate_peer-Verifies srh signed id e = elim (Option-cases (block_of srh.ps.local_chain id)) [
    | inl nothing ↦ absurd (ground arith)
    | inr (b, here) ↦ (b, here, ground arith)
  ]

  -- A notice that is let in has been validated.
  pub note_inactive-validates :
      (srh srh' : SybilResistanceHandler) (gp : GossipPacket) (node : InactiveNode)
      (signed : SignedDocument)
      → gp.in_node ≡ some node
      → gp.digital_sign ≡ some signed
      → note_inactive lib srh gp ≡ ok (srh', allowed)
      → validate_peer lib srh (some signed) gp.node_id ≡ ok true
  note_inactive-validates srh srh' gp node signed n s e =
      checked (validate_peer lib srh (some signed) gp.node_id) refl
    where
      checked :
          (r : Outcome Bool)
          → validate_peer lib srh (some signed) gp.node_id ≡ r
          → validate_peer lib srh (some signed) gp.node_id ≡ ok true
      checked (ok true) v = v
      checked (ok false) v = absurd (unfold note_inactive in ground arith)
      checked (panic p) v = absurd (unfold note_inactive in ground arith)

  note_inactive-good :
      (srh srh' : SybilResistanceHandler) (gp : GossipPacket)
      → note_inactive lib srh gp ≡ ok (srh', allowed)
      → NoticeIsGood lib srh.ps.local_chain gp.node_id gp.in_node gp.digital_sign
  note_inactive-good srh srh' gp e = read gp.in_node gp.digital_sign refl refl
    where
      read :
          (n : Option InactiveNode) (s : Option SignedDocument)
          → gp.in_node ≡ n
          → gp.digital_sign ≡ s
          → NoticeIsGood lib srh.ps.local_chain gp.node_id n s
      read none s hn hs = tt
      read (some node) none hn hs = tt
      read (some node) (some signed) hn hs =
          validate_peer-Verifies srh signed gp.node_id
            (note_inactive-validates srh srh' gp node signed hn hs e)

  module _ (now : ℕ) (clock : ℕ → ℕ) (time : Time) (srh : SybilResistanceHandler)
      (gp : GossipPacket) (from : Address) where
    from_member-Admitted :
        {srh' : SybilResistanceHandler}
        → from_member lib srh gp from ≡ ok (srh', allowed)
        → (is_active srh from ≡ true)
          × (is_some (take_message from srh.cn.monitors) ≡ true)
          × NoticeIsGood lib srh.ps.local_chain gp.node_id gp.in_node gp.digital_sign
    from_member-Admitted {srh'} e = elim (Option-cases (deliver srh from)) [
      | inl nobody ↦ absurd (unfold from_member in ground arith)
      | inr (s, got) ↦ (
        unfold from_member in ground arith,
        watched-deliver srh from got,
        (let same = same_ps-deliver srh from got in
            rw same at (note_inactive-good s srh' gp (unfold from_member in ground arith))),
      )
    ]

    -- A packet that is let in names another node than this one, and one that has a valid block at
    -- the reading of the clock; it comes from an address that is marked active and watched; and a
    -- signed notice in it verifies with the key in that block.
    pub handle_gossip_packet-Admitted :
        {srh' : SybilResistanceHandler}
        → handle_gossip_packet lib now clock time srh gp from ≡ ok (srh', allowed)
        → Admitted lib now srh gp from
    handle_gossip_packet-Admitted {srh'} e =
        elim (Bool-cases (
          not (gp.node_id == srh.ps.my_id)
          && contains_valid_node_id lib now srh.ps.local_chain gp.node_id)) [
            | inr stranger ↦
                absurd (refuses stranger (handle_joining lib clock time srh.ps from) refl)
            | inl member ↦
                let (a, w, n) =
                  from_member-Admitted {srh' = srh'}
                    (unfold handle_gossip_packet in ground arith) in
                record {
                  foreign = λ q. ground (arith, ==_iff gp.node_id srh.ps.my_id);
                  member = ground arith;
                  active = a;
                  watched = w;
                  notice = n;
                }
          ]
      where
        refuses :
            (not (gp.node_id == srh.ps.my_id)
                && contains_valid_node_id lib now srh.ps.local_chain gp.node_id)
              ≡ false
            → (r : Outcome PuzzlesState) → handle_joining lib clock time srh.ps from ≡ r
            → ⊥
        refuses stranger (panic p) j = unfold handle_gossip_packet in ground arith
        refuses stranger (ok ps) j = unfold handle_gossip_packet in ground arith

    -- A packet that names this node or one with no valid block is refused, and has no effect but
    -- that of `handleJoining` for its sender.
    pub stranger_joins :
        (ps' : PuzzlesState)
        → (gp.node_id ≡ srh.ps.my_id)
          ⊎ (contains_valid_node_id lib now srh.ps.local_chain gp.node_id ≡ false)
        → handle_joining lib clock time srh.ps from ≡ ok ps'
        → handle_gossip_packet lib now clock time srh gp from ≡ ok (record srh { ps = ps' }, denied)
    unfolding handle_gossip_packet
    stranger_joins ps' s j = ground (arith, ==_iff gp.node_id srh.ps.my_id)
