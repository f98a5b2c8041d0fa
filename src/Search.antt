-- ===== src/Search.antt =====
-- File search of code/filehandler.go and code/gossiper.go: the budgets, the matches and the requests.
pub mod Results
pub mod Budget
pub mod Located
pub mod Repeats
pub mod Duplicates
mod Tests
use blockchain_sybil_attack.Base.{
  ℕ, zero, suc, ◌+◌, ◌-◌, ◌*◌, ◌/◌, ◌%◌, ◌^◌, Bool, true, false, not, ◌&&◌, Option, none, some,
  List, [], ◌∷◌, ◌++◌, Text, Map, get, ◌==◌, nat_eq, text_eq, codes, length, replicate, ltb, leb,
  if◌then◌else◌, Outcome, ok, panic, index_out_of_range, divide_by_zero, length_out_of_range, ◌>>=◌,
}
use blockchain_sybil_attack.Messages.{Address, SearchRequest, SearchResult, empty_packet, Gossiper}
use blockchain_sybil_attack.Node.{P2pFile, State, send}
use blockchain_sybil_attack.Files.{split_metafile, or_nil}
use blockchain_sybil_attack.Base.Words.{contains, join}

-- `for i := 0; i < n; i++ { res[i] = res[i] + 1 }`.
unfoldable pub add_to_first : ℕ → List ℕ → Outcome (List ℕ)
add_to_first zero res = ok res
add_to_first (suc n) [] = panic index_out_of_range
add_to_first (suc n) (b ∷ res) = add_to_first n res >>= (λ rest. ok ((b + 1) ∷ rest))

-- `int(budget)` is negative from 2 ^ 63 on, and `make` refuses a negative length.
unfoldable pub split_budget : ℕ → List Gossiper → Outcome (List ℕ)
split_budget budget peers =
    let n = length peers in
    let base_budget = budget / n in
    if leb (2 ^ 63) budget
    then panic length_out_of_range
    else if leb budget n
    then ok (replicate budget 1)
    else if n == 0
    then panic divide_by_zero
    else add_to_first (budget - n * base_budget) (replicate n base_budget)

-- The index of a hash in a metafile, -1 as `none`.
unfoldable pub chunk_index : List Text → Text → Option ℕ
chunk_index [] hash = none
chunk_index (h ∷ metafile) hash =
    let later = chunk_index metafile hash in
    if h == hash then some 0 else elim later [ none ↦ none | some i ↦ some (suc i) ]

unfoldable pub matches_any : Text → List Text → Bool
matches_any filename [] = false
matches_any filename (k ∷ keywords) =
    if contains filename k then true else matches_any filename keywords

unfoldable pub chunk_map_of : List Text → Map Text (List ℕ) → List ℕ
chunk_map_of mf [] = []
chunk_map_of mf ((hash, chunk) ∷ chunks) =
    let rest = chunk_map_of mf chunks in
    elim (chunk_index mf hash) [ none ↦ rest | some i ↦ i ∷ rest ]

unfoldable pub matches_among : List Text → Map Text P2pFile → Outcome (List SearchResult)
unfolding matches_any chunk_map_of
matches_among keywords [] = ok []
matches_among keywords ((filename, file) ∷ files) =
    let rest = matches_among keywords files in
    if matches_any filename keywords
    then (do
      mf ← split_metafile file.metafile
      res ← rest
      ok (
          record {
            file_name = filename;
            metafile_hash = file.meta_hash;
            chunk_map = chunk_map_of mf file.chunks;
          }
          ∷ res))
    else rest

unfoldable pub find_matches : State → List Text → Outcome (List SearchResult)
find_matches s keywords = matches_among keywords s.files

unfoldable pub duplicate_in : List SearchRequest → SearchRequest → Bool
duplicate_in [] sr = false
duplicate_in (sr_stored ∷ stored) sr =
    if join (codes ",") sr_stored.keywords == join (codes ",") sr.keywords
      && sr_stored.origin == sr.origin
    then true
    else duplicate_in stored sr

unfoldable pub is_duplicate : State → SearchRequest → Bool
is_duplicate s sr = duplicate_in s.search_received sr

unfoldable pub peers_but : Address → List Gossiper → List Gossiper
peers_but from [] = []
peers_but from (g ∷ gossipers) =
    let rest = peers_but from gossipers in if not (g.address == from) then g ∷ rest else rest

-- One request with each of the budgets, to the peer at the same index.
unfoldable pub send_budgets : State → Text → List Text → List ℕ → List Gossiper → Outcome State
unfolding send
send_budgets s origin keywords [] peers = ok s
send_budgets s origin keywords (b ∷ budgets) [] = panic index_out_of_range
send_budgets s origin keywords (b ∷ budgets) (peer ∷ peers) =
    send_budgets
      (send s
        (record empty_packet {
          s_request = some (record { origin = origin; budget = b; keywords = keywords });
        })
        peer.address)
      origin keywords budgets peers

-- `sr.Budget - 1` of a `uint64`.
unfoldable pub forward_search_request : State → SearchRequest → Address → Outcome State
unfolding peers_but split_budget send_budgets
forward_search_request s sr from = do
  budgets ← split_budget ((sr.budget + 2 ^ 64 - 1) % 2 ^ 64) (peers_but from s.gossipers)
  send_budgets s sr.origin sr.keywords budgets (peers_but from s.gossipers)

unfoldable pub reply_with : State → SearchRequest → List SearchResult → State
unfolding send
reply_with s sr [] = s
reply_with s sr (r ∷ results) = elim (get s.next_hops sr.origin) [
  | none ↦ s
  | some next_hop ↦
      send s
        (record empty_packet {
          s_reply = some (record {
            origin = s.me.identifier;
            destination = sr.origin;
            hop_limit = 10;
            results = r ∷ results;
          });
        })
        next_hop
]

unfoldable pub handle_search_request : State → SearchRequest → Address → Outcome State
unfolding is_duplicate forward_search_request reply_with find_matches
handle_search_request s sr from =
    let noted = record s { search_received = s.search_received ++ sr ∷ [] } in
    if is_duplicate s sr then ok s else (do
      forwarded ← if ltb 1 sr.budget then forward_search_request noted sr from else ok noted
      results ← find_matches forwarded sr.keywords
      ok (reply_with forwarded sr results))

-- `startFileSearch`: nothing ever makes `searchInProgress` true.
unfoldable pub begin_search : State → ℕ → State
begin_search s budget =
    if s.search_in_progress then s else record s { budget = budget; search = some [] }

-- One tick of a search whose own budget is `budget`: the budget of the next tick, `none` at the end.
unfoldable pub search_tick : State → List Text → ℕ → Outcome (State × Option ℕ)
unfolding split_budget send_budgets
search_tick s keywords budget =
    if leb budget 32 && ltb (length (or_nil s.search)) 2
    then (do
      budgets ← split_budget budget s.gossipers
      sent ← send_budgets s s.me.identifier keywords budgets s.gossipers
      ok (record sent { budget = budget * 2 }, some (budget * 2)))
    else ok (
      record s {
        search_in_progress = false;
        current_search = s.current_search ++ codes "SEARCHISCOMPLETED" ∷ [];
      },
      none,
    )

unfoldable pub receives_search_request_from_peer : SearchRequest → Address → State → Outcome State
unfolding handle_search_request
receives_search_request_from_peer sr from s =
    if not (sr.origin == s.me.identifier) then handle_search_request s sr from else ok s

-- One tick of `removeSearches`.
unfoldable pub remove_searches : State → State
remove_searches s = record s { search_received = [] }
