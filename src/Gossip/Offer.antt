-- ===== src/Gossip/Offer.antt =====
-- One exchange between two gossipers, by code/gossiper.go: a status, and the rumor that answers it.
use blockchain_sybil_attack.Base.{
  ℕ, ◌≤◌, ◌≡◌, refl, ap, sym, ◌∙◌, Bool, true, false, not, ◌&&◌, Bool-cases, Option-cases, inl, inr,
  Option, none, some, List, [], ◌∷◌, ◌++◌, length, Text, ◌==◌, nat_eq, text_eq, if◌then◌else◌,
  Outcome, ok, arith,
}
use blockchain_sybil_attack.Base.Split.{Free}
use blockchain_sybil_attack.Base.Int.{ℤ, pos, int_eq, succ_ℤ, ltb_ℤ}
use blockchain_sybil_attack.Messages.{
  Address, RumorMessage, PeerStatus, StatusPacket, empty_packet, Datagram,
}
use blockchain_sybil_attack.Puzzles
use blockchain_sybil_attack.Node.{key_eq, Net, State, send}
use blockchain_sybil_attack.Gossip.{
  get_msg, compare_mine, compare_theirs, compare_vector_clock_with_other, msg_already_seen,
}
use blockchain_sybil_attack.Gossip.Spreading.{
  is_waiting_for_ack, get_pending_mongering, go_on_mongering, send_rumor_to, send_status_to,
  terminate_mongering, receives_rumor_from_peer, receives_status_from_peer,
}
use blockchain_sybil_attack.Gossip.Compare.{status_of, round, compare_mine-round}
use blockchain_sybil_attack.Gossip.Gaps.{next_of}
use blockchain_sybil_attack.Gossip.Awaited.{Awaits}
use blockchain_sybil_attack.Gossip.Keyed.{IsKeyed, get_msg-Keyed}
use blockchain_sybil_attack.Gossip.Progress.{awaited_rumor_advances}

-- The rumor that is found for another node is looked up under what that waits for.
Found : State → List PeerStatus → RumorMessage → Type 0
Found s other m = (o : Text) × (n : ℤ) × (m ≡ get_msg s o n) × Awaits other o n

compare_mine-Found :
    (s : State) (mine other : List PeerStatus) (b c : Bool) (m : RumorMessage)
    → compare_mine s mine other b ≡ (c, some m)
    → Found s other m
unfolding Found Awaits
compare_mine-Found s [] other b c m e = absurd (unfold compare_mine in ground arith)
compare_mine-Found s (st ∷ rest) other b c m e =
    let one : round s st rest other b (status_of other st.identifier) ≡ (c, some m) =
      sym (compare_mine-round s st rest other b) ∙ e in
    elim (Option-cases (status_of other st.identifier)) [
      | inl new ↦ (st.identifier, pos 1, unfold round in ground arith, inr (new, refl))
      | inr (theirs, here) ↦ elim (Bool-cases (ltb_ℤ st.next_id theirs.next_id)) [
        | inl more ↦ compare_mine-Found s rest other true c m (unfold round in ground arith)
        | inr no_more ↦ elim (Bool-cases (ltb_ℤ theirs.next_id st.next_id)) [
          | inl less ↦
              (st.identifier, theirs.next_id, unfold round in ground arith, inl (ground arith))
          | inr equal ↦ compare_mine-Found s rest other b c m (unfold round in ground arith)
        ]
      ]
    ]

-- The last packet that was sent carries a rumor.
pub SentRumor : State → RumorMessage → Address → Type 0
SentRumor s m dest =
    (earlier : List Datagram) × (s.srh.ps.conn
      ≡ earlier
        ++ record {
          packet = record empty_packet { rumor = some m; node_id = s.srh.ps.my_id };
          dest = dest;
        }
          ∷ [])

SentRumor-send_rumor_to :
    (s : State) (m : RumorMessage) (dest : Address) → SentRumor (send_rumor_to s m dest) m dest
unfolding SentRumor send_rumor_to send Puzzles.send
SentRumor-send_rumor_to s m dest = (s.srh.ps.conn, refl)

-- The comparison reads nothing of a state but its clock and its rumors.
module _ (s t : State) (same : (o : Text) (n : ℤ) → get_msg t o n ≡ get_msg s o n) where
  round-same :
      (st : PeerStatus) (rest other : List PeerStatus) (b : Bool)
      → compare_mine t rest other true ≡ compare_mine s rest other true
      → compare_mine t rest other b ≡ compare_mine s rest other b
      → (o : Option PeerStatus) → round t st rest other b o ≡ round s st rest other b o
  unfolding round
  round-same st rest other b more equal none = ap (λ m. (b, some m)) (same st.identifier (pos 1))
  round-same st rest other b more equal (some theirs) =
      let less = same st.identifier theirs.next_id in ground arith

  compare_mine-same :
      (mine other : List PeerStatus) (b : Bool)
      → compare_mine t mine other b ≡ compare_mine s mine other b
  compare_mine-same [] other b = unfold compare_mine in refl
  compare_mine-same (st ∷ rest) other b =
      compare_mine-round t st rest other b
      ∙ round-same st rest other b (compare_mine-same rest other true)
          (compare_mine-same rest other b) (status_of other st.identifier)
      ∙ sym (compare_mine-round s st rest other b)

terminated-compare :
    (a : State) (from : Address) (vc : StatusPacket)
    → compare_vector_clock_with_other (terminate_mongering a from) vc
      ≡ compare_vector_clock_with_other a vc
unfolding compare_vector_clock_with_other terminate_mongering
terminated-compare a from vc =
    let same : (o : Text) (n : ℤ) → get_msg (terminate_mongering a from) o n ≡ get_msg a o n =
      λ o n. unfold get_msg in refl in
    let compared =
      compare_mine-same a (terminate_mongering a from) same a.vector_clock.want vc.want false in
    ap (λ (r : Bool × Option RumorMessage). (compare_theirs a.vector_clock.want vc.want r.0, r.1))
      compared

answer_status :
    (coin r : ℕ) (vc : StatusPacket) (from : Address) (a : State) (c : Bool) (m : RumorMessage)
    → compare_vector_clock_with_other a vc ≡ (c, some m)
    → a.no_forward ≡ false
    → (a' : State) × (receives_status_from_peer coin r vc from a ≡ ok a') × SentRumor a' m from
unfolding receives_status_from_peer
answer_status coin r vc from a c m offers forwards =
    let s = if is_waiting_for_ack a from then terminate_mongering a from else a in
    let pending = if is_waiting_for_ack a from then get_pending_mongering a from else none in
    let asked : Bool → Bool → State =
      λ not_seen quiet. if not_seen && not quiet then send_status_to s from else s in
    let branch : Bool × Option RumorMessage → Bool → Outcome State = λ found quiet. elim found.1 [
      | some msg ↦
          ok (
            if not quiet then send_rumor_to (asked found.0 quiet) msg from else asked found.0 quiet)
      | none ↦
          if not found.0 && not quiet
          then go_on_mongering coin r pending (asked found.0 quiet)
          else ok (asked found.0 quiet)
    ] in
    let compared : compare_vector_clock_with_other s vc ≡ (c, some m) =
      elim (Bool-cases (is_waiting_for_ack a from)) [
        | inl waits ↦ rw waits (terminated-compare a from vc ∙ offers)
        | inr idle ↦ rw idle offers
      ] in
    let still : s.no_forward ≡ false = unfold terminate_mongering in ground arith in
    (
      send_rumor_to (asked c false) m from,
      ap (λ found. branch found s.no_forward) compared ∙ ap (branch (c, some m)) still,
      SentRumor-send_rumor_to (asked c false) m from,
    )

-- When a gossiper answers a status of another with a rumor that has a text and that the other has not
-- stored, the other takes it, and its clock then waits for the next rumor of the origin; provided that
-- the first stores its rumors under their own keys and forwards, and that the other has a peer and
-- sees the first under an IP address of version 4 and a port.
pub offered_rumor_advances :
    (net : Net) (now : ℤ) (coin r r' : ℕ) (a b : State) (c : Bool) (m : RumorMessage)
    (theirs : Address) (ip port : Text)
    → IsKeyed a
    → a.no_forward ≡ false
    → compare_vector_clock_with_other a b.vector_clock ≡ (c, some m)
    → (m.text == []) ≡ false
    → msg_already_seen b m ≡ false
    → 1 ≤ length b.gossipers
    → Free 58 ip
    → Free 58 port
    → (a' b' : State) × (receives_status_from_peer coin r b.vector_clock theirs a ≡ ok a')
      × SentRumor a' m theirs
      × (receives_rumor_from_peer net now r' m (ip ++ 58 ∷ port) b ≡ ok b')
      × (next_of b'.vector_clock.want m.origin ≡ some (succ_ℤ m.id))
      × (msg_already_seen b' m ≡ true)
unfolding compare_vector_clock_with_other Found
offered_rumor_advances net now coin r r' a b c m theirs ip port keyed forwards offers text new
      some_peer free_ip free_port =
    let (a', answers, sent) = answer_status coin r b.vector_clock theirs a c m offers forwards in
    let mine = compare_mine a a.vector_clock.want b.vector_clock.want false in
    let (o, n, same, awaited) =
      compare_mine-Found a a.vector_clock.want b.vector_clock.want false mine.0 m
        (λ i. (mine.0, (offers i).1)) in
    let (from_o, of_n) =
      get_msg-Keyed a o n keyed (ap (λ (x : RumorMessage). x.text == []) (sym same) ∙ text) in
    let origin : m.origin ≡ o = ap (λ (x : RumorMessage). x.origin) same ∙ from_o in
    let id : m.id ≡ n = ap (λ (x : RumorMessage). x.id) same ∙ of_n in
    let awaits : Awaits b.vector_clock.want m.origin m.id = rw (origin, id) awaited in
    let (b', takes, moved, stored) =
      awaited_rumor_advances net now r' m ip port b free_ip free_port some_peer text new awaits in
    (a', b', answers, sent, takes, moved, stored)
