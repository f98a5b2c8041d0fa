-- ===== src/Gossip/Sync.antt =====
-- When `compareVectorClockWithOther` of code/helper.go finds two vector clocks in sync.
use blockchain_sybil_attack.Base.{
  ◌≡◌, ◌↔◌, ◌∙◌, refl, Bool, true, false, Option, none, some, List, [], ◌∷◌, is_some, All, arith,
  inl, inr, Bool-cases,
}
use blockchain_sybil_attack.Base.Int.{ℤ, pos, negsuc, ltb_ℤ}
use blockchain_sybil_attack.Messages.{PeerStatus, StatusPacket}
use blockchain_sybil_attack.Node.{State}
use blockchain_sybil_attack.Gossip.{
  find_peer_status, compare_mine, compare_theirs, compare_vector_clock_with_other,
}
use blockchain_sybil_attack.Gossip.Compare.{status_of, round, is_some-find_from, compare_mine-round}

-- The other waits for the same rumor of every origin in the list.
abbrev pub SameStatuses : List PeerStatus → List PeerStatus → Type 0
SameStatuses mine other =
    All
      (λ st. (t : PeerStatus) × (status_of other st.identifier ≡ some t) × (t.next_id ≡ st.next_id))
      mine

-- Every origin of the list is known.
abbrev pub AllKnown : List PeerStatus → List PeerStatus → Type 0
AllKnown mine theirs = All (λ st. is_some (status_of mine st.identifier) ≡ true) theirs

ltb_ℤ_antisym : (a b : ℤ) → ltb_ℤ a b ≡ false → ltb_ℤ b a ≡ false → b ≡ a
ltb_ℤ_antisym (pos a) (pos b) h k = ground arith
ltb_ℤ_antisym (pos a) (negsuc b) h k = ground arith
ltb_ℤ_antisym (negsuc a) (pos b) h k = ground arith
ltb_ℤ_antisym (negsuc a) (negsuc b) h k = ground arith

ltb_ℤ_irrefl : (a : ℤ) → ltb_ℤ a a ≡ false
ltb_ℤ_irrefl (pos a) = ground arith
ltb_ℤ_irrefl (negsuc a) = ground arith

module _ (s : State) (other : List PeerStatus) where
  compare_mine_sound :
      (mine : List PeerStatus) (b : Bool)
      → compare_mine s mine other b ≡ (false, none)
      → (b ≡ false) × SameStatuses mine other
  compare_mine_sound [] b e = (unfold compare_mine in ground arith, tt)
  compare_mine_sound (st ∷ rest) b e =
      looked (compare_mine_sound rest true) (compare_mine_sound rest b)
        (status_of other st.identifier) refl (rw (compare_mine-round s st rest other b) at e)
    where
      looked :
          (compare_mine s rest other true ≡ (false, none)
            → (true ≡ false) × SameStatuses rest other)
          → (compare_mine s rest other b ≡ (false, none) → (b ≡ false) × SameStatuses rest other)
          → (o : Option PeerStatus) → status_of other st.identifier ≡ o
          → round s st rest other b (status_of other st.identifier) ≡ (false, none)
          → (b ≡ false) × SameStatuses (st ∷ rest) other
      looked later same none u r = absurd (unfold round in ground arith)
      looked later same (some t) u r = elim (Bool-cases (ltb_ℤ st.next_id t.next_id)) [
        | inl more ↦
            absurd
              (let f = later (unfold round in ground arith) in let q : true ≡ false = f.0 in cc)
        | inr no_more ↦ elim (Bool-cases (ltb_ℤ t.next_id st.next_id)) [
          | inl less ↦ absurd (unfold round in ground arith)
          | inr equal ↦
              let (is_false, all) = same (unfold round in ground arith) in
              (is_false, ((t, u, ltb_ℤ_antisym st.next_id t.next_id no_more equal), all))
        ]
      ]

  round-same :
      (st t : PeerStatus) (rest : List PeerStatus) (b : Bool)
      → status_of other st.identifier ≡ some t
      → t.next_id ≡ st.next_id
      → round s st rest other b (status_of other st.identifier) ≡ compare_mine s rest other b
  unfolding round
  round-same st t rest b u same = ground (arith, ltb_ℤ_irrefl st.next_id)

  compare_mine_complete :
      (mine : List PeerStatus) (b : Bool)
      → SameStatuses mine other
      → compare_mine s mine other b ≡ (b, none)
  compare_mine_complete [] b h = unfold compare_mine in refl
  compare_mine_complete (st ∷ rest) b ((t, u, same), h) =
      compare_mine-round s st rest other b
      ∙ round-same st t rest b u same
      ∙ compare_mine_complete rest b h

compare_theirs_sound :
    (mine theirs : List PeerStatus) (b : Bool)
    → compare_theirs mine theirs b ≡ false
    → (b ≡ false) × AllKnown mine theirs
unfolding compare_theirs find_peer_status
compare_theirs_sound mine [] b e = (e, tt)
compare_theirs_sound mine (st ∷ rest) b e =
    elim (Bool-cases (is_some (status_of mine st.identifier))) [
      | inl known ↦
          let (f, h) =
            compare_theirs_sound mine rest b
              (ground (arith, is_some-find_from mine st.identifier)) in
          (f, (known, h))
      | inr unknown ↦
          let (f, h) =
            compare_theirs_sound mine rest true
              (ground (arith, is_some-find_from mine st.identifier)) in
          absurd (let q : true ≡ false = f in cc)
    ]

compare_theirs_complete :
    (mine theirs : List PeerStatus)
    → AllKnown mine theirs
    → compare_theirs mine theirs false ≡ false
unfolding compare_theirs find_peer_status
compare_theirs_complete mine [] h = refl
compare_theirs_complete mine (st ∷ rest) (known, h) =
    ground (arith, is_some-find_from mine st.identifier, compare_theirs_complete mine rest h)

-- The comparison asks for nothing and offers nothing exactly when the other waits for the same
-- rumor of every origin that this node knows, and knows no origin besides.
pub in_sync_iff :
    (s : State) (vc : StatusPacket)
    → (compare_vector_clock_with_other s vc ≡ (false, none))
      ↔ (SameStatuses s.vector_clock.want vc.want × AllKnown s.vector_clock.want vc.want)
unfolding compare_vector_clock_with_other
in_sync_iff s vc = (
  (λ e.
      let r = compare_mine s s.vector_clock.want vc.want false in
      let (b, known) = compare_theirs_sound s.vector_clock.want vc.want r.0 (λ i. (e i).0) in
      let (f, same) =
        compare_mine_sound s vc.want s.vector_clock.want false (λ i. (b i, (e i).1)) in
      (same, known)),
  (λ h.
      let m = compare_mine_complete s vc.want s.vector_clock.want false h.0 in
      rw m (λ i. (compare_theirs_complete s.vector_clock.want vc.want h.1 i, none))),
)
