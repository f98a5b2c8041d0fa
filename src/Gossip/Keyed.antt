-- ===== src/Gossip/Keyed.antt =====
-- Rumors are stored under their own keys, by code/helper.go.
use blockchain_sybil_attack.Base.{
  ℕ, ◌≡◌, ap, sym, ◌∙◌, false, Bool-cases, Option-cases, inl, inr, some, [], Text, get, get-put,
  ◌==◌, ==_iff, ==_refl, nat_eq, text_eq, ok, arith,
}
use blockchain_sybil_attack.Base.Int.{ℤ, int_eq}
use blockchain_sybil_attack.Messages.{Address, RumorMessage}
use blockchain_sybil_attack.Node.{RumorMessageKey, StoredRumor, key_eq, Net, State}
use blockchain_sybil_attack.Gossip.{get_key, get_msg, msg_already_seen, add_msg_seen}
use blockchain_sybil_attack.Gossip.Spreading.{receives_rumor_from_peer}
use blockchain_sybil_attack.Gossip.Handlers.{SameClock, receives_rumor_from_peer-keeps}
use blockchain_sybil_attack.Gossip.Clock.{record_rumor}

-- Every rumor is stored under its own origin and identifier.
unfoldable pub IsKeyed : State → Type 0
IsKeyed s =
    (o : Text) (n : ℤ) (r : StoredRumor)
    → get s.msgs_seen (record { origin = o; id = n }) ≡ some r
    → (r.origin ≡ o) × (r.id ≡ n)

IsKeyed-same : (s t : State) → SameClock s t → IsKeyed s → IsKeyed t
unfolding IsKeyed
IsKeyed-same s t x h =
    λ o n r e. h o n r (ap (λ seen. get seen (record { origin = o; id = n })) (sym x.same_seen) ∙ e)

IsKeyed-record :
    (now : ℤ) (s : State) (rumor : RumorMessage)
    → msg_already_seen s rumor ≡ false
    → IsKeyed s
    → IsKeyed (record_rumor now s rumor)
unfolding IsKeyed add_msg_seen msg_already_seen
IsKeyed-record now s rumor new h o n r e =
    let added : StoredRumor = record {
      origin = rumor.origin;
      id = rumor.id;
      text = rumor.text;
      time_added = now;
    } in
    let at_key = get-put s.msgs_seen (get_key rumor) (record { origin = o; id = n }) added in
    elim (Bool-cases (get_key rumor == record { origin = o; id = n })) [
      | inl here ↦
          let key = (==_iff (get_key rumor) (record { origin = o; id = n })).0 here in
          let same : r ≡ added = ground arith in
          (
            ap (λ (x : StoredRumor). x.origin) same ∙ ap (λ (k : RumorMessageKey). k.origin) key,
            ap (λ (x : StoredRumor). x.id) same ∙ ap (λ (k : RumorMessageKey). k.id) key,
          )
      | inr other ↦ h o n r (ground arith)
    ]

pub get_msg-Keyed :
    (s : State) (o : Text) (n : ℤ)
    → IsKeyed s
    → ((get_msg s o n).text == []) ≡ false
    → ((get_msg s o n).origin ≡ o) × ((get_msg s o n).id ≡ n)
unfolding get_msg IsKeyed
get_msg-Keyed s o n h text = elim (Option-cases (get s.msgs_seen (record { origin = o; id = n }))) [
  | inl missing ↦ absurd (ground (arith, ==_refl {A = Text} []))
  | inr (r, here) ↦ (let (a, b) = h o n r here in (ground arith, ground arith))
]

pub receives_rumor_from_peer-IsKeyed :
    (net : Net) (now : ℤ) (r : ℕ) (from : Address) (rumor : RumorMessage) (s s' : State)
    → receives_rumor_from_peer net now r rumor from s ≡ ok s'
    → IsKeyed s
    → IsKeyed s'
receives_rumor_from_peer-IsKeyed net now r from rumor s s' =
    receives_rumor_from_peer-keeps IsKeyed IsKeyed-same IsKeyed-record now r from net rumor s s'
