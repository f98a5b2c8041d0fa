-- ===== src/Web/Results.antt =====
-- The matches of a search reach the page, from code/filehandler.go to code/handlers.go.
use blockchain_sybil_attack.Base.{
  ℕ, ◌≡◌, ap, sym, ◌∙◌, true, false, List, [], ◌∷◌, ◌++◌, append_assoc, append-nil, none, Text, All,
  ◌==◌, ==_refl, text_eq, codes, ok, arith,
}
use blockchain_sybil_attack.Node.{State}
use blockchain_sybil_attack.Search.{search_tick}
use blockchain_sybil_attack.Web.{take_matches}

abbrev pub completed : Text
completed = codes "SEARCHISCOMPLETED"

-- What is written of the matches.
abbrev pub lines : List Text → Text
lines [] = []
lines (m ∷ matches) = m ++ codes "_" ++ lines matches

take_matches-match :
    (retrieved matches : List Text) (m written : Text)
    → (m == completed) ≡ false
    → take_matches retrieved (m ∷ matches) written
      ≡ take_matches (retrieved ++ m ∷ []) matches (written ++ m ++ codes "_")
unfolding take_matches
take_matches-match retrieved matches m written other = ground arith

take_matches-end :
    (retrieved matches : List Text) (written : Text)
    → take_matches retrieved (completed ∷ matches) written ≡ ((retrieved, matches), (true, written))
unfolding take_matches
take_matches-end retrieved matches written = ground (arith, ==_refl completed)

take_matches-completed :
    (ms retrieved : List Text) (written : Text)
    → All (λ m. (m == completed) ≡ false) ms
    → take_matches retrieved (ms ++ completed ∷ []) written
      ≡ ((retrieved ++ ms, []), (true, written ++ lines ms))
take_matches-completed [] retrieved written all =
    take_matches-end retrieved [] written
    ∙ ap (λ r. ((r, []), (true, written))) (sym (append-nil retrieved))
    ∙ ap (λ w. ((retrieved ++ [], []), (true, w))) (sym (append-nil written))
take_matches-completed (m ∷ ms) retrieved written (other, all) =
    take_matches-match retrieved (ms ++ completed ∷ []) m written other
    ∙ take_matches-completed ms (retrieved ++ m ∷ []) (written ++ m ++ codes "_") all
    ∙ ap (λ r. ((r, []), (true, written ++ m ++ codes "_" ++ lines ms)))
        (append_assoc retrieved (m ∷ []) ms)
    ∙ ap (λ w. ((retrieved ++ m ∷ ms, []), (true, w)))
        (append_assoc (written ++ m) (codes "_") (lines ms)
          ∙ append_assoc written m (codes "_" ++ lines ms)
          ∙ ap (◌++◌ written) (sym (append_assoc m (codes "_") (lines ms))))

-- When a search has ended, the page retrieves all the matches that were found, in their order, if
-- none of the files has the name that marks the end.
pub ended_search_retrieved :
    (s t : State) (keywords : List Text) (budget : ℕ)
    → search_tick s keywords budget ≡ ok (t, none)
    → All (λ m. (m == completed) ≡ false) s.current_search
    → take_matches [] t.current_search [] ≡ ((s.current_search, []), (true, lines s.current_search))
unfolding search_tick
ended_search_retrieved s t keywords budget e all =
    let sent : t.current_search ≡ s.current_search ++ completed ∷ [] = ground arith in
    ap (λ m. take_matches [] m []) sent ∙ take_matches-completed s.current_search [] [] all
