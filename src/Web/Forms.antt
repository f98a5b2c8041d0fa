-- ===== src/Web/Forms.antt =====
-- The texts that the page posts reach the gossiper through code/handlers.go.
use blockchain_sybil_attack.Base.{
  ℕ, ◌≡◌, refl, ap, sym, ◌∙◌, false, inl, inr, Bool-cases, [], ◌∷◌, ◌++◌, Text, ◌==◌, nat_eq,
  ==_iff, codes, if◌then◌else◌, ok, none, ◌>>=◌, arith,
}
use blockchain_sybil_attack.Base.Split.{Free, split-pair}
use blockchain_sybil_attack.Base.Int.{pos}
use blockchain_sybil_attack.Node.{Net, State}
use blockchain_sybil_attack.Routing.{add_peer_from_string}
use blockchain_sybil_attack.Gossip.Spreading.{receives_rumor_from_client}
use blockchain_sybil_attack.Dispatch.Clients.{Desk, quiet}
use blockchain_sybil_attack.Web.{
  answer, second, form_value, percent_to_colon, add_peer_handler, message_handler,
}

form_value-pair :
    (key word : Text) → Free 61 key → Free 61 word → form_value (key ++ 61 ∷ word) ≡ ok word
unfolding form_value
form_value-pair key word free_key free_word = ap second (split-pair 61 key word free_key free_word)

-- What a browser makes of the colons of an address.
abbrev encode_colons : Text → Text
encode_colons [] = []
encode_colons (c ∷ t) = if c == 58 then 37 ∷ 51 ∷ 65 ∷ encode_colons t else c ∷ encode_colons t

percent_to_colon-colon :
    (rest : Text)
    → percent_to_colon (37 ∷ 51 ∷ 65 ∷ rest) ≡ (percent_to_colon rest >>= (λ more. ok (58 ∷ more)))
unfolding percent_to_colon
percent_to_colon-colon rest = refl

percent_to_colon-other :
    (c : ℕ) (rest : Text)
    → (c == 37) ≡ false
    → percent_to_colon (c ∷ rest) ≡ (percent_to_colon rest >>= (λ more. ok (c ∷ more)))
unfolding percent_to_colon
percent_to_colon-other c [] other = ground arith
percent_to_colon-other c (d ∷ []) other = ground arith
percent_to_colon-other c (d ∷ e ∷ rest) other = ground arith

percent_to_colon-encode_colons : (t : Text) → Free 37 t → percent_to_colon (encode_colons t) ≡ ok t
percent_to_colon-encode_colons [] free = unfold percent_to_colon in refl
percent_to_colon-encode_colons (c ∷ t) (differ, free) =
    let later = percent_to_colon-encode_colons t free in
    elim (Bool-cases (c == 58)) [
      | inl colon ↦ rw colon (
          percent_to_colon-colon (encode_colons t)
          ∙ ap (λ o. o >>= (λ more. ok (58 ∷ more))) later
          ∙ ap (λ d. ok (d ∷ t)) (sym ((==_iff c 58).0 colon)))
      | inr other ↦ rw other (
          percent_to_colon-other c (encode_colons t) differ
          ∙ ap (λ o. o >>= (λ more. ok (c ∷ more))) later)
    ]

encode_colons-Free : (t : Text) → Free 61 t → Free 61 (encode_colons t)
encode_colons-Free [] free = tt
encode_colons-Free (c ∷ t) (differ, free) =
    let later = encode_colons-Free t free in
    elim (Bool-cases (c == 58)) [
      | inl colon ↦
          (let kept : Free 61 (37 ∷ 51 ∷ 65 ∷ encode_colons t) = (refl, (refl, (refl, later))) in
            rw colon kept)
      | inr other ↦ (let kept : Free 61 (c ∷ encode_colons t) = (differ, later) in rw other kept)
    ]

-- A peer whose address has no `%` and no `=` is added under this address, when it is posted with its
-- colons encoded.
posted_peer_added :
    (net : Net) (s : State) (key address : Text)
    → Free 61 key
    → Free 61 address
    → Free 37 address
    → add_peer_handler s (record { text = key ++ 61 ∷ encode_colons address; failed = false }) net
      ≡ ok (answer (quiet (add_peer_from_string net s address)) (codes "Peer successfully added."))
unfolding add_peer_handler
posted_peer_added net s key address free_key free plain =
    rw
      (
        form_value-pair key (encode_colons address) free_key (encode_colons-Free address free),
        percent_to_colon-encode_colons address plain,
      )
      refl

-- A text without `=` that is posted as a message becomes a rumor of the gossiper's client with this
-- text.
pub posted_message_said :
    (s : State) (desk : Desk) (key text : Text)
    → Free 61 key
    → Free 61 text
    → message_handler s (record { text = key ++ 61 ∷ text; failed = false }) desk ≡ (
        receives_rumor_from_client desk.seconds desk.random
          (record { origin = []; id = pos 1; text = text; last_ip = none; last_port = none })
          s
        >>= (λ t. ok (answer (quiet t) (codes "Message successfully received."))))
unfolding message_handler
posted_message_said s desk key text free_key free = rw (form_value-pair key text free_key free) refl
