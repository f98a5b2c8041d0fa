-- ===== src/Search/Results.antt =====
-- The replies to file searches: addSearchResult of code/filehandler.go, and the handlers of replies of
-- code/gossiper.go.
use blockchain_sybil_attack.Base.{
  ℕ, not, none, some, List, [], ◌∷◌, ◌++◌, Text, Map, get, put, ◌==◌, nat_eq, text_eq, hex,
  if◌then◌else◌, Outcome, ok, panic, nil_map_write, ◌>>=◌,
}
use blockchain_sybil_attack.Messages.{SearchReply, SearchResult, empty_packet}
use blockchain_sybil_attack.Node.{State, send}
use blockchain_sybil_attack.Files.{or_nil, array_contains}

unfoldable pub locate : Text → Map ℕ (List Text) → List ℕ → Map ℕ (List Text)
unfolding array_contains
locate from chunks_loc [] = chunks_loc
locate from chunks_loc (index ∷ chunk_map) =
    let at_index = or_nil (get chunks_loc index) in
    locate from
      (if not (array_contains at_index from)
        then put chunks_loc index (at_index ++ from ∷ [])
        else chunks_loc)
      chunk_map

unfoldable pub locate_first : Text → Map ℕ (List Text) → List ℕ → Map ℕ (List Text)
locate_first from chunks_loc [] = chunks_loc
locate_first from chunks_loc (index ∷ chunk_map) =
    locate_first from (put chunks_loc index (from ∷ [])) chunk_map

-- The channel `currentSearch` is the list of what was sent on it. The map of the search is nil until
-- the first search starts.
unfoldable pub add_search_result : State → Text → SearchResult → Outcome State
unfolding locate locate_first
add_search_result s from sr = elim s.search [
  | none ↦ panic nil_map_write
  | some search ↦ elim (get search sr.file_name) [
    | none ↦ ok (record s {
      search = some (
          put search sr.file_name (record {
            file_name = sr.file_name;
            metafile_hash = sr.metafile_hash;
            chunks_locations = locate_first from [] sr.chunk_map;
          }));
      current_search = s.current_search ++ sr.file_name ∷ [];
    })
    | some res ↦
        if hex sr.metafile_hash == hex res.metafile_hash
        then ok (record s {
          search = some (
              put search sr.file_name
                (record res { chunks_locations = locate from res.chunks_locations sr.chunk_map }));
        })
        else ok s
  ]
]

unfoldable pub add_search_results : State → Text → List SearchResult → Outcome State
add_search_results s from [] = ok s
add_search_results s from (res ∷ results) =
    add_search_result s from res >>= (λ t. add_search_results t from results)

unfoldable pub handle_search_reply : State → SearchReply → Outcome State
handle_search_reply s sr = add_search_results s sr.origin sr.results

unfoldable pub forward_search_reply : State → SearchReply → State
unfolding send
forward_search_reply s sr = elim (get s.next_hops sr.destination) [
  | none ↦ s
  | some next_hop ↦ send s (record empty_packet { s_reply = some sr }) next_hop
]

unfoldable pub receives_search_reply_from_peer : SearchReply → State → Outcome State
unfolding handle_search_reply forward_search_reply
receives_search_reply_from_peer sr s =
    if sr.destination == s.me.identifier
    then handle_search_reply s sr
    else ok (forward_search_reply s sr)
