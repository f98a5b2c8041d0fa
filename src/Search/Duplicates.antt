-- ===== src/Search/Duplicates.antt =====
-- A search request that was handled is not handled again, in code/filehandler.go.
use blockchain_sybil_attack.Base.{
  ℕ, ◌+◌, ◌-◌, ◌%◌, ◌^◌, ◌≡◌, refl, ap, sym, ◌∙◌, Bool, true, false, ◌&&◌, ◌||◌, Bool-cases, inl,
  inr, List, [], ◌∷◌, ◌++◌, Text, ◌==◌, ==_iff, nat_eq, text_eq, codes, ltb, if◌then◌else◌, Outcome,
  Outcome-cases, ok, panic, ◌>>=◌, arith,
}
use blockchain_sybil_attack.Base.Words.{join}
use blockchain_sybil_attack.Messages.{Address, Gossiper, SearchRequest, SearchResult}
use blockchain_sybil_attack.Node.{State, send}
use blockchain_sybil_attack.Search.{
  duplicate_in, is_duplicate, split_budget, peers_but, send_budgets, forward_search_request,
  find_matches, reply_with, handle_search_request, remove_searches,
}

-- Requests of the same origin for the same keywords, joined by commas.
abbrev pub alike : SearchRequest → SearchRequest → Bool
alike sr sr' =
    join (codes ",") sr.keywords == join (codes ",") sr'.keywords && sr.origin == sr'.origin

send_budgets-received :
    (budgets : List ℕ) (s t : State) (origin : Text) (keywords : List Text) (peers : List Gossiper)
    → send_budgets s origin keywords budgets peers ≡ ok t
    → t.search_received ≡ s.search_received
unfolding send_budgets
send_budgets-received [] s t origin keywords peers e = ground arith
send_budgets-received (b ∷ budgets) s t origin keywords [] e = absurd (ground arith)
send_budgets-received (b ∷ budgets) s t origin keywords (peer ∷ peers) e =
    send_budgets-received budgets _ t origin keywords peers e ∙ unfold send in refl

forward_search_request-received :
    (s t : State) (sr : SearchRequest) (from : Address)
    → forward_search_request s sr from ≡ ok t
    → t.search_received ≡ s.search_received
unfolding forward_search_request
forward_search_request-received s t sr from e =
    sent (split_budget ((sr.budget + 2 ^ 64 - 1) % 2 ^ 64) (peers_but from s.gossipers)) refl
  where
    sent :
        (o : Outcome (List ℕ))
        → split_budget ((sr.budget + 2 ^ 64 - 1) % 2 ^ 64) (peers_but from s.gossipers) ≡ o
        → t.search_received ≡ s.search_received
    sent (panic p) m = absurd (ground arith)
    sent (ok budgets) m =
        send_budgets-received budgets s t sr.origin sr.keywords (peers_but from s.gossipers)
          (ground arith)

reply_with-received :
    (s : State) (sr : SearchRequest) (results : List SearchResult)
    → (reply_with s sr results).search_received ≡ s.search_received
unfolding reply_with send
reply_with-received s sr [] = refl
reply_with-received s sr (r ∷ results) = ground arith

duplicate_in-last :
    (stored : List SearchRequest) (sr sr' : SearchRequest)
    → alike sr sr' ≡ true
    → duplicate_in (stored ++ sr ∷ []) sr' ≡ true
unfolding duplicate_in
duplicate_in-last [] sr sr' same = ground arith
duplicate_in-last (x ∷ stored) sr sr' same =
    let later = duplicate_in-last stored sr sr' same in ground arith

alike_trans :
    (x sr sr' : SearchRequest) → alike x sr ≡ true → alike sr sr' ≡ true → alike x sr' ≡ true
alike_trans x sr sr' first second =
    let keywords = ==_iff (join (codes ",") x.keywords) (join (codes ",") sr.keywords) in
    let origins = ==_iff x.origin sr.origin in grind arith

duplicate_in-cons :
    (x sr : SearchRequest) (stored : List SearchRequest)
    → duplicate_in (x ∷ stored) sr ≡ (alike x sr || duplicate_in stored sr)
unfolding duplicate_in
duplicate_in-cons x sr stored = ground arith

duplicate_in-alike :
    (stored : List SearchRequest) (sr sr' : SearchRequest)
    → alike sr sr' ≡ true
    → duplicate_in stored sr ≡ true
    → duplicate_in stored sr' ≡ true
duplicate_in-alike [] sr sr' same found = absurd (unfold duplicate_in in ground arith)
duplicate_in-alike (x ∷ stored) sr sr' same found =
    let seen = sym (duplicate_in-cons x sr stored) ∙ found in
    elim (Bool-cases (alike x sr)) [
      | inl here ↦
          let also = alike_trans x sr sr' here same in duplicate_in-cons x sr' stored ∙ rw also refl
      | inr other ↦
          let later = duplicate_in-alike stored sr sr' same (rw (← seen) (rw other refl)) in
          duplicate_in-cons x sr' stored ∙ ground arith
    ]

ignored :
    (t : State) (sr : SearchRequest) (from : Address)
    → is_duplicate t sr ≡ true
    → handle_search_request t sr from ≡ ok t
unfolding handle_search_request
ignored t sr from seen = ground arith

noted : State → SearchRequest → State
noted s sr = record s { search_received = s.search_received ++ sr ∷ [] }

-- What is done with a request that is new: it is forwarded, and then answered.
forwarded : State → SearchRequest → Address → Outcome State
forwarded s sr from =
    if ltb 1 sr.budget then forward_search_request (noted s sr) sr from else ok (noted s sr)

answered : SearchRequest → State → Outcome State
answered sr f = find_matches f sr.keywords >>= (λ results. ok (reply_with f sr results))

handle_search_request-new :
    (s : State) (sr : SearchRequest) (from : Address)
    → is_duplicate s sr ≡ false
    → handle_search_request s sr from ≡ (forwarded s sr from >>= answered sr)
unfolding handle_search_request forwarded answered noted
handle_search_request-new s sr from new = ground arith

forwarded-received :
    (s f : State) (sr : SearchRequest) (from : Address)
    → forwarded s sr from ≡ ok f
    → f.search_received ≡ s.search_received ++ sr ∷ []
unfolding forwarded noted
forwarded-received s f sr from e = elim (Bool-cases (ltb 1 sr.budget)) [
  | inl more ↦ forward_search_request-received (noted s sr) f sr from (ground arith)
  | inr spent ↦ ground arith
]

answered-received :
    (sr : SearchRequest) (f t : State)
    → answered sr f ≡ ok t
    → t.search_received ≡ f.search_received
unfolding answered
answered-received sr f t e = elim (Outcome-cases (find_matches f sr.keywords)) [
  | inl (results, found) ↦
      let replied : t ≡ reply_with f sr results = ground arith in
      rw replied (reply_with-received f sr results)
  | inr (p, panics) ↦ absurd (ground arith)
]

-- A request that is new is added to the received ones.
new_is_received :
    (s t : State) (sr : SearchRequest) (from : Address)
    → is_duplicate s sr ≡ false
    → handle_search_request s sr from ≡ ok t
    → t.search_received ≡ s.search_received ++ sr ∷ []
new_is_received s t sr from new e =
    let run = sym (handle_search_request-new s sr from new) ∙ e in
    elim (Outcome-cases (forwarded s sr from)) [
      | inl (f, sent) ↦
          let replied : answered sr f ≡ ok t = ap (λ o. o >>= answered sr) (sym sent) ∙ run in
          answered-received sr f t replied ∙ forwarded-received s f sr from sent
      | inr (p, panics) ↦ absurd (ground arith)
    ]

-- A request that was handled is among the received ones.
handled_is_received :
    (s t : State) (sr sr' : SearchRequest) (from : Address)
    → handle_search_request s sr from ≡ ok t
    → alike sr sr' ≡ true
    → is_duplicate t sr' ≡ true
unfolding is_duplicate
handled_is_received s t sr sr' from e same = elim (Bool-cases (is_duplicate s sr)) [
  | inl seen ↦
      let kept : ok t ≡ ok s = sym e ∙ ignored s sr from seen in
      let same_state : t ≡ s = cc kept in
      rw same_state (duplicate_in-alike s.search_received sr sr' same seen)
  | inr new ↦
      rw (new_is_received s t sr from new e) (duplicate_in-last s.search_received sr sr' same)
]

-- Requests that are handled one after the other, each from its sender.
unfoldable pub handle_all : State → List (SearchRequest × Address) → Outcome State
handle_all s [] = ok s
handle_all s ((sr, from) ∷ later) = handle_search_request s sr from >>= (λ t. handle_all t later)

-- A request that is a duplicate stays one.
duplicate_in-append :
    (stored more : List SearchRequest) (sr : SearchRequest)
    → duplicate_in stored sr ≡ true
    → duplicate_in (stored ++ more) sr ≡ true
unfolding duplicate_in
duplicate_in-append [] more sr found = absurd (ground arith)
duplicate_in-append (x ∷ stored) more sr found = elim (Bool-cases (alike x sr)) [
  | inl here ↦ ground arith
  | inr other ↦ let later = duplicate_in-append stored more sr (ground arith) in ground arith
]

stays_duplicate :
    (s t : State) (sr sr' : SearchRequest) (from : Address)
    → is_duplicate s sr ≡ true
    → handle_search_request s sr' from ≡ ok t
    → is_duplicate t sr ≡ true
unfolding is_duplicate
stays_duplicate s t sr sr' from seen e = elim (Bool-cases (is_duplicate s sr')) [
  | inl again ↦
      let kept : ok t ≡ ok s = sym e ∙ ignored s sr' from again in
      let same_state : t ≡ s = cc kept in rw same_state seen
  | inr new ↦
      rw (new_is_received s t sr' from new e)
        (duplicate_in-append s.search_received (sr' ∷ []) sr seen)
]

all_stay_duplicate :
    (later : List (SearchRequest × Address)) (s t : State) (sr : SearchRequest)
    → is_duplicate s sr ≡ true
    → handle_all s later ≡ ok t
    → is_duplicate t sr ≡ true
unfolding handle_all
all_stay_duplicate [] s t sr seen e = (let same : s ≡ t = cc e in rw (← same) seen)
all_stay_duplicate ((sr', from) ∷ later) s t sr seen e =
    elim (Outcome-cases (handle_search_request s sr' from)) [
      | inl (u, done) ↦
          all_stay_duplicate later u t sr (stays_duplicate s u sr sr' from seen done)
            (ap (λ o. o >>= (λ v. handle_all v later)) (sym done) ∙ e)
      | inr (p, panics) ↦ absurd (ground arith)
    ]

-- A request that is like one that was handled changes nothing, whoever sends it and whatever its
-- budget, however many other requests have been handled in between without a panic, until the
-- requests that were received are forgotten; then it is new again.
pub handled_search_ignored :
    (s t u : State) (sr sr' : SearchRequest) (from from' : Address)
    (between : List (SearchRequest × Address))
    → handle_search_request s sr from ≡ ok t
    → handle_all t between ≡ ok u
    → alike sr sr' ≡ true
    → (handle_search_request u sr' from' ≡ ok u) × (is_duplicate (remove_searches u) sr' ≡ false)
unfolding is_duplicate remove_searches
handled_search_ignored s t u sr sr' from from' between e others same = (
  ignored u sr' from'
      (all_stay_duplicate between t u sr' (handled_is_received s t sr sr' from e same) others),
  unfold duplicate_in in refl,
)
