-- ===== src/Routing/Newest.antt =====
-- What a sequence of rumors makes of the routing table of code/helper.go.
use blockchain_sybil_attack.Base.{
  ◌≡◌, ◌≢◌, refl, ◌∙◌, false, ◌&&◌, some, List, [], ◌∷◌, inl, inr, Text, get, ◌==◌, ==_iff, nat_eq,
  text_eq, Bool-cases, arith,
}
use blockchain_sybil_attack.Base.Int.{ℤ, pos, negsuc, ltb_ℤ}
use blockchain_sybil_attack.Messages.{Address, RumorMessage}
use blockchain_sybil_attack.Node.{State}
use blockchain_sybil_attack.Routing.{update_routing_table}
use blockchain_sybil_attack.Routing.Table.{
  update_routing_table_routes, update_routing_table_mono, seqn_after, seqn_taken, ltb_ℤ_irrefl,
}

-- The updates by rumors that come one after the other, each from its sender.
unfoldable pub update_all : State → List (RumorMessage × Address) → State
update_all s [] = s
update_all s ((msg, from) ∷ later) = update_all (update_routing_table s msg from).0 later

pub data Among (msg : RumorMessage) (from : Address) : List (RumorMessage × Address) → Type 0 where
  first : {later : List (RumorMessage × Address)} → Among msg from ((msg, from) ∷ later)
  after :
      {m : RumorMessage} {f : Address} {later : List (RumorMessage × Address)}
      → Among msg from later
      → Among msg from ((m, f) ∷ later)

not_less_trans : (a b c : ℤ) → ltb_ℤ b a ≡ false → ltb_ℤ c b ≡ false → ltb_ℤ c a ≡ false
not_less_trans (pos a) (pos b) (pos c) e f = ground arith
not_less_trans (pos a) (pos b) (negsuc c) e f = ground arith
not_less_trans (pos a) (negsuc b) (pos c) e f = ground arith
not_less_trans (pos a) (negsuc b) (negsuc c) e f = ground arith
not_less_trans (negsuc a) (pos b) (pos c) e f = ground arith
not_less_trans (negsuc a) (pos b) (negsuc c) e f = ground arith
not_less_trans (negsuc a) (negsuc b) (pos c) e f = ground arith
not_less_trans (negsuc a) (negsuc b) (negsuc c) e f = ground arith

-- The number that is kept for an origin does not go down.
update_all_mono :
    (msgs : List (RumorMessage × Address)) (s : State) (o : Text) (n : ℤ)
    → get s.last_seqn_seen o ≡ some n
    → (m : ℤ) × (get (update_all s msgs).last_seqn_seen o ≡ some m) × (ltb_ℤ m n ≡ false)
unfolding update_all
update_all_mono [] s o n known = (n, known, ltb_ℤ_irrefl n)
update_all_mono ((msg, from) ∷ later) s o n known =
    let (k, then_known, higher) = update_routing_table_mono s msg from o n known in
    let (m, at_end, highest) =
      update_all_mono later (update_routing_table s msg from).0 o k then_known in
    (m, at_end, not_less_trans n k m higher highest)

same_me :
    (s : State) (msg : RumorMessage) (from : Address)
    → (update_routing_table s msg from).0.me ≡ s.me
unfolding update_routing_table
same_me s msg from = ground arith

-- No rumor of an origin has a higher number than the one that is kept in the end.
highest_kept :
    (msgs : List (RumorMessage × Address)) (s : State) (msg : RumorMessage) (from : Address)
    → Among msg from msgs
    → msg.origin ≢ s.me.identifier
    → (m : ℤ) × (get (update_all s msgs).last_seqn_seen msg.origin ≡ some m)
      × (ltb_ℤ m msg.id ≡ false)
unfolding update_all
highest_kept [] s msg from among foreign = elim among [ ]
highest_kept ((m, f) ∷ later) s msg from first foreign =
    let (n, known, taken) = seqn_taken s msg from foreign in
    let (m, at_end, highest) =
      update_all_mono later (update_routing_table s msg from).0 msg.origin n known in
    (m, at_end, not_less_trans msg.id n m taken highest)
highest_kept ((m, f) ∷ later) s msg from (after among) foreign =
    highest_kept later (update_routing_table s m f).0 msg from among (rw (same_me s m f) foreign)

-- The route to an origin, and the number kept for it, after the rumors: those from before, or the
-- sender and the number of one of the rumors.
pub data Learnt (s t : State) (msgs : List (RumorMessage × Address)) (o : Text) : Type 0 where
  kept :
      get t.next_hops o ≡ get s.next_hops o
      → get t.last_seqn_seen o ≡ get s.last_seqn_seen o
      → Learnt s t msgs o
  learnt :
      (msg : RumorMessage) (from : Address)
      → Among msg from msgs
      → msg.origin ≡ o
      → get t.next_hops o ≡ some from
      → get t.last_seqn_seen o ≡ some msg.id
      → Learnt s t msgs o

update_all-Learnt :
    (msgs : List (RumorMessage × Address)) (s : State) (o : Text)
    → Learnt s (update_all s msgs) msgs o
unfolding update_all
update_all-Learnt [] s o = kept refl refl
update_all-Learnt ((msg, from) ∷ later) s o =
    let hops = update_routing_table_routes s msg from o in
    let seqns = seqn_after s msg from o in
    elim (update_all-Learnt later (update_routing_table s msg from).0 o) [
      | learnt m f among named route number ↦ learnt m f (after among) named route number
      | kept route number ↦
          elim (Bool-cases ((update_routing_table s msg from).1 && msg.origin == o)) [
            | inl taken ↦
                learnt msg from first ((==_iff msg.origin o).0 (ground arith))
                  (route ∙ hops ∙ rw taken refl) (number ∙ seqns ∙ rw taken refl)
            | inr not_taken ↦
                kept (route ∙ hops ∙ rw not_taken refl) (number ∙ seqns ∙ rw not_taken refl)
          ]
    ]

-- After any sequence of rumors with one of another node among them, the route to that node and the
-- number that is kept for it are both those from before, or both the sender and the identifier of one
-- rumor of that node in the sequence; and the number is no lower than that of any of its rumors.
pub newest_route :
    (s : State) (msgs : List (RumorMessage × Address)) (msg : RumorMessage) (from : Address)
    → Among msg from msgs
    → msg.origin ≢ s.me.identifier
    → Learnt s (update_all s msgs) msgs msg.origin
      × ((m : ℤ) × (get (update_all s msgs).last_seqn_seen msg.origin ≡ some m)
          × (ltb_ℤ m msg.id ≡ false))
newest_route s msgs msg from among foreign =
    (update_all-Learnt msgs s msg.origin, highest_kept msgs s msg from among foreign)
