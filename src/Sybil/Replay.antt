-- ===== src/Sybil/Replay.antt =====
-- A signed notice of code/sybilresistance.go that is sent again with another address in it.
use blockchain_sybil_attack.Base.{
  ℕ, ◌≡◌, refl, ap, ◌∙◌, true, false, some, get, get-put, is_some, ◌==◌, ==_iff, nat_eq, text_eq,
  ok, arith, inl, inr, Option-cases,
}
use blockchain_sybil_attack.Chain.Platform.{Platform, Time}
use blockchain_sybil_attack.Chain.Ledger.{contains_valid_node_id}
use blockchain_sybil_attack.Messages.{Address, InactiveNode, SignedDocument, GossipPacket}
use blockchain_sybil_attack.Neighbors.{
  SybilResistanceHandler, set_active, is_active, take_message, deliver,
}
use blockchain_sybil_attack.Sybil.{
  allowed, find_public_key_for_corresponding_node, validate_peer, note_inactive, from_member,
  handle_gossip_packet,
}
use blockchain_sybil_attack.Sybil.Gate.{
  Verifies, note_inactive-validates, same_ps-deliver, is_active-set_self,
  handle_gossip_packet-Admitted,
}

module _ (lib : Platform) where
  Verifies-validate_peer :
      (srh : SybilResistanceHandler) (signed : SignedDocument) (id : ℕ)
      → Verifies lib srh.ps.local_chain id signed
      → validate_peer lib srh (some signed) id ≡ ok true
  unfolding validate_peer find_public_key_for_corresponding_node
  Verifies-validate_peer srh signed id (b, here, good) = rw here (ap ok good)

  -- A message that a monitor takes leaves the chain as it is, and what was known of other addresses.
  deliver-known :
      (srh : SybilResistanceHandler) (k j : Address)
      → is_some (take_message k srh.cn.monitors) ≡ true
      → is_some (get srh.cn.active_neighbors j) ≡ true
      → (s : SybilResistanceHandler) × (deliver srh k ≡ some s)
        × (s.ps ≡ srh.ps)
        × (is_some (get s.cn.active_neighbors j) ≡ true)
  unfolding deliver set_active
  deliver-known srh k j watched known = elim (Option-cases (take_message k srh.cn.monitors)) [
    | inl nobody ↦ absurd (ground arith)
    | inr (ms, got) ↦ (
      set_active (record srh { cn = record srh.cn { monitors = ms } }) k true,
      ground arith,
      refl,
      ground (arith, get-put srh.cn.active_neighbors k j true),
    )
  ]

  -- A notice that verifies, about an address that is known.
  note_inactive-marks :
      (srh : SybilResistanceHandler) (gp : GossipPacket) (node : InactiveNode)
      (signed : SignedDocument)
      → gp.in_node ≡ some node
      → gp.digital_sign ≡ some signed
      → Verifies lib srh.ps.local_chain gp.node_id signed
      → is_some (get srh.cn.active_neighbors node.ip_addr) ≡ true
      → note_inactive lib srh gp ≡ ok (set_active srh node.ip_addr false, allowed)
  unfolding note_inactive
  note_inactive-marks srh gp node signed n d good known =
      let valid = Verifies-validate_peer srh signed gp.node_id good in ground arith

  -- A packet with a signed notice that is let in leaves the puzzles as they are.
  notice_same_ps :
      (srh s : SybilResistanceHandler) (gp : GossipPacket) (node : InactiveNode)
      (signed : SignedDocument)
      → gp.in_node ≡ some node
      → gp.digital_sign ≡ some signed
      → note_inactive lib srh gp ≡ ok (s, allowed)
      → s.ps ≡ srh.ps
  unfolding note_inactive set_active
  notice_same_ps srh s gp node signed n d e =
      let valid = note_inactive-validates lib srh s gp node signed n d e in ground arith

  from_member_same_ps :
      (srh s : SybilResistanceHandler) (gp : GossipPacket) (node : InactiveNode)
      (signed : SignedDocument) (from : Address)
      → gp.in_node ≡ some node
      → gp.digital_sign ≡ some signed
      → from_member lib srh gp from ≡ ok (s, allowed)
      → s.ps ≡ srh.ps
  unfolding from_member
  from_member_same_ps srh s gp node signed from n d e = elim (Option-cases (deliver srh from)) [
    | inl nobody ↦ absurd (ground arith)
    | inr (s1, got) ↦
        notice_same_ps s1 s gp node signed n d (ground arith) ∙ same_ps-deliver lib srh from got
  ]

  -- A signed notice that was let in can be sent again, from any address that is active and watched,
  -- with any other address in it that is known: it is let in again, and that address is then marked
  -- inactive; as long as the block of the signer is valid and mu1 is free.
  pub notice_replayed :
      (now now' : ℕ) (clock clock' : ℕ → ℕ) (time time' : Time) (srh s : SybilResistanceHandler)
      (gp : GossipPacket) (node other : InactiveNode) (signed : SignedDocument)
      (from from' : Address)
      → gp.in_node ≡ some node
      → gp.digital_sign ≡ some signed
      → handle_gossip_packet lib now clock time srh gp from ≡ ok (s, allowed)
      → contains_valid_node_id lib now' s.ps.local_chain gp.node_id ≡ true
      → s.cn.mu1_held ≡ false
      → is_active s from' ≡ true
      → is_some (take_message from' s.cn.monitors) ≡ true
      → is_some (get s.cn.active_neighbors other.ip_addr) ≡ true
      → (t : SybilResistanceHandler) × (handle_gossip_packet lib now' clock' time' s
            (record gp { in_node = some other })
            from'
          ≡ ok (t, allowed))
        × (is_active t other.ip_addr ≡ false)
  notice_replayed now now' clock clock' time time' srh s gp node other signed from from' n d e valid
        free active watched known =
      let admitted = handle_gossip_packet-Admitted lib now clock time srh gp from e in
      let foreign = admitted.foreign in
      let member = admitted.member in
      let good : Verifies lib srh.ps.local_chain gp.node_id signed = rw (n, d) at admitted.notice in
      let same : s.ps ≡ srh.ps =
        from_member_same_ps srh s gp node signed from n d
          (unfold handle_gossip_packet in ground (arith, ==_iff gp.node_id srh.ps.my_id)) in
      let (u, got, kept, still) = deliver-known s from' other.ip_addr watched known in
      let again : Verifies lib u.ps.local_chain gp.node_id signed = rw (kept ∙ same) good in
      let marked =
        note_inactive-marks u (record gp { in_node = some other }) other signed refl d again
          still in
      let other_id : (gp.node_id == s.ps.my_id) ≡ false =
        rw same (ground (arith, ==_iff gp.node_id srh.ps.my_id)) in
      (
        set_active u other.ip_addr false,
        unfold handle_gossip_packet from_member in ground arith,
        is_active-set_self u other.ip_addr false,
      )
