-- ===== src/Search/Tests.antt =====
-- The theorems about budgets at a node with one or two peers.
use blockchain_sybil_attack.Base.{
  ℕ, Text, Bytes, Map, get, false, ◌&&◌, ◌||◌, ◌==◌, text_eq, some, index_out_of_range, ◌≤◌, ◌≡◌,
  refl, List, [], ◌∷◌, codes, ok, panic, All, arith, text_eqb,
}
use blockchain_sybil_attack.Messages.{Gossiper, SearchRequest}
use blockchain_sybil_attack.Search.{
  chunk_map_of, remove_searches, matches_among, split_budget, handle_search_request, is_duplicate,
  duplicate_in,
}
use blockchain_sybil_attack.Search.Results.{locate_first, add_search_result}
use blockchain_sybil_attack.Search.Budget.{Fair, split_budget-Fair}
use blockchain_sybil_attack.Base.Words.{join}
use blockchain_sybil_attack.Chain.Ledger.Shape.{member}
use blockchain_sybil_attack.Messages.{SearchResult}
use blockchain_sybil_attack.Node.{State}
use blockchain_sybil_attack.Files.Transfer.Fetching.{
  Fetch, chunk, hash_bytes, request_next, located,
}
use blockchain_sybil_attack.Search.Located.{known, accepts, add_search_result_known}
use blockchain_sybil_attack.Search.Repeats.{repeated_chunk_panics}
use blockchain_sybil_attack.Search.Duplicates.{handle_all, handled_search_ignored}
use blockchain_sybil_attack.Samples.{gossiper, home, result}

abbrev three_peers : List Gossiper
three_peers =
    record { address = codes "a"; identifier = [] }
    ∷ record { address = codes "b"; identifier = [] }
    ∷ record { address = codes "c"; identifier = [] }
    ∷ []

split_budget-Fair_example :
    (parts : List ℕ) × (split_budget 8 three_peers ≡ ok parts)
    × Fair 3 2 8 parts
    × All (λ b. 1 ≤ b) parts
split_budget-Fair_example = split_budget-Fair 8 three_peers (omega arith) (omega arith)

abbrev sample_search : SearchRequest
sample_search = record { origin = codes "C"; budget = 2; keywords = codes "song" ∷ [] }

-- A file with the same chunk twice.
abbrev twice : List Text
twice = codes "00" ∷ codes "00" ∷ []

abbrev one_chunk : Map Text Bytes
one_chunk = (codes "00", 0 ∷ []) ∷ []

abbrev fetching_twice : Fetch
fetching_twice = record {
  filename = codes "song";
  metahash = [];
  channel = 4;
  stage = chunk 0 (codes "00") (codes "00" ∷ []);
}

repeated_chunk_panics_example :
    request_next
      (located (locate_first (codes "B") [] (chunk_map_of twice one_chunk)))
      gossiper
      fetching_twice
      1
      (codes "00" ∷ [])
    ≡ panic index_out_of_range
unfolding hash_bytes
repeated_chunk_panics_example =
    repeated_chunk_panics gossiper fetching_twice (codes "B") twice one_chunk (codes "00") 0 1
      (0 ∷ []) [] (omega arith) refl refl refl

abbrev searching : State
searching = record gossiper { search = some [] }

abbrev song_found : SearchResult
song_found = record { file_name = codes "song"; metafile_hash = []; chunk_map = 0 ∷ [] }

add_search_result_known_example :
    known (result (add_search_result searching (codes "B") song_found)) (codes "song") 0 (codes "B")
    ≡ (known searching (codes "song") 0 (codes "B")
        || (song_found.file_name == codes "song"
            && accepts searching song_found
            && member 0 song_found.chunk_map
            && codes "B" == codes "B"))
unfolding add_search_result get
add_search_result_known_example =
    add_search_result_known searching (result (add_search_result searching (codes "B") song_found))
      (codes "B") song_found (codes "song") 0 (codes "B") refl

abbrev last_search : SearchRequest
last_search = record sample_search { budget = 1 }

abbrev other_search : SearchRequest
other_search = record last_search { origin = codes "D" }

abbrev handled : State
handled = result (handle_search_request gossiper last_search home)

abbrev both_handled : State
both_handled = result (handle_search_request handled other_search home)

handled_search_ignored_example :
    (handle_search_request both_handled sample_search (codes "10.0.0.9:1") ≡ ok both_handled)
    × (is_duplicate (remove_searches both_handled) sample_search ≡ false)
unfolding handle_search_request is_duplicate duplicate_in text_eqb matches_among join handle_all
handled_search_ignored_example =
    handled_search_ignored gossiper handled both_handled last_search sample_search home
      (codes "10.0.0.9:1") ((other_search, home) ∷ []) refl refl refl
