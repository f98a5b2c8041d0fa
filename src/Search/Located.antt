-- ===== src/Search/Located.antt =====
-- Where the chunks of a file that was found are, as addSearchResult of code/filehandler.go notes
-- it.
use blockchain_sybil_attack.Base.{
  ℕ, ◌≡◌, refl, ◌∙◌, Bool, true, false, not, ◌&&◌, ◌||◌, Bool-cases, Option-cases, inl, inr, none,
  some, List, [], ◌∷◌, ◌++◌, Text, Map, get, put, get-put, ◌==◌, ==_iff, nat_eq, text_eq, hex,
  if◌then◌else◌, ok, arith,
}
use blockchain_sybil_attack.Chain.Ledger.Shape.{member}
use blockchain_sybil_attack.Messages.{SearchResult}
use blockchain_sybil_attack.Node.{CurrentSearchResult, State}
use blockchain_sybil_attack.Files.{or_nil, array_contains}
use blockchain_sybil_attack.Search.Results.{locate, locate_first, add_search_result}

array_contains-append :
    (array : List Text) (p q : Text)
    → array_contains (array ++ p ∷ []) q ≡ (array_contains array q || p == q)
unfolding array_contains
array_contains-append [] p q = ground arith
array_contains-append (a ∷ array) p q = let later = array_contains-append array p q in ground arith

-- The peers that are known to have a chunk.
abbrev pub holds : Map ℕ (List Text) → ℕ → Text → Bool
holds locations i p = array_contains (or_nil (get locations i)) p

-- One index of the loop over the chunk map.
holds-step :
    (from : Text) (locations : Map ℕ (List Text)) (index i : ℕ) (p : Text)
    → holds
        (if not (array_contains (or_nil (get locations index)) from)
          then put locations index (or_nil (get locations index) ++ from ∷ [])
          else locations)
        i
        p
      ≡ (holds locations i p || (index == i && from == p))
holds-step from locations index i p =
    let added = get-put locations index i (or_nil (get locations index) ++ from ∷ []) in
    let more = array_contains-append (or_nil (get locations index)) from p in
    grind (arith, ==_iff index i, ==_iff from p)

locate-holds :
    (from : Text) (locations : Map ℕ (List Text)) (indices : List ℕ) (i : ℕ) (p : Text)
    → holds (locate from locations indices) i p
      ≡ (holds locations i p || (member i indices && from == p))
unfolding locate
locate-holds from locations [] i p = ground arith
locate-holds from locations (index ∷ indices) i p =
    let step = holds-step from locations index i p in
    let rest =
      locate-holds from
        (if not (array_contains (or_nil (get locations index)) from)
          then put locations index (or_nil (get locations index) ++ from ∷ [])
          else locations)
        indices i p in
    rest ∙ ground arith

locate_first-holds :
    (from : Text) (locations : Map ℕ (List Text)) (indices : List ℕ) (i : ℕ) (p : Text)
    → holds (locate_first from locations indices) i p
      ≡ (if member i indices then from == p else holds locations i p)
unfolding locate_first
locate_first-holds from locations [] i p = refl
locate_first-holds from locations (index ∷ indices) i p =
    let rest = locate_first-holds from (put locations index (from ∷ [])) indices i p in
    let one = get-put locations index i (from ∷ []) in
    let alone : array_contains (from ∷ []) p ≡ (from == p) =
      unfold array_contains in ground arith in
    rest ∙ grind (arith, ==_iff index i)

-- Whether the search has found that peer `p` has chunk `i` of a file.
abbrev pub known : State → Text → ℕ → Text → Bool
known s name i p = elim (get (or_nil s.search) name) [
  | none ↦ false
  | some found ↦ holds found.chunks_locations i p
]

-- Whether a result is for the file that was found under the name, or there is none yet.
abbrev pub accepts : State → SearchResult → Bool
accepts s sr = elim (get (or_nil s.search) sr.file_name) [
  | none ↦ true
  | some found ↦ hex sr.metafile_hash == hex found.metafile_hash
]

known-put :
    (s t : State) (search : Map Text CurrentSearchResult) (key name : Text)
    (entry : CurrentSearchResult) (i : ℕ) (p : Text)
    → s.search ≡ some search
    → t.search ≡ some (put search key entry)
    → known t name i p
      ≡ (if key == name then holds entry.chunks_locations i p else known s name i p)
known-put s t search key name entry i p here after =
    let added = get-put search key name entry in ground arith

-- A search result makes known that its sender has the chunks that it lists of the file that it names,
-- unless another file was found under the name before; nothing else becomes known or unknown.
pub add_search_result_known :
    (s t : State) (from : Text) (sr : SearchResult) (name : Text) (i : ℕ) (p : Text)
    → add_search_result s from sr ≡ ok t
    → known t name i p ≡ (
        known s name i p
        || (sr.file_name == name && accepts s sr && member i sr.chunk_map && from == p))
unfolding add_search_result
add_search_result_known s t from sr name i p e = elim (Option-cases s.search) [
  | inl missing ↦ absurd (ground arith)
  | inr (search, here) ↦ elim (Option-cases (get search sr.file_name)) [
    | inl new ↦
        let entry : CurrentSearchResult = record {
          file_name = sr.file_name;
          metafile_hash = sr.metafile_hash;
          chunks_locations = locate_first from [] sr.chunk_map;
        } in
        let added = known-put s t search sr.file_name name entry i p here (ground arith) in
        let first = locate_first-holds from [] sr.chunk_map i p in
        let none_yet : holds [] i p ≡ false = unfold get array_contains in refl in
        added ∙ grind (arith, ==_iff sr.file_name name)
    | inr (res, found) ↦ elim (Bool-cases (hex sr.metafile_hash == hex res.metafile_hash)) [
      | inl same ↦
          let entry : CurrentSearchResult = record res {
            chunks_locations = locate from res.chunks_locations sr.chunk_map;
          } in
          let added = known-put s t search sr.file_name name entry i p here (ground arith) in
          let more = locate-holds from res.chunks_locations sr.chunk_map i p in
          added ∙ grind (arith, ==_iff sr.file_name name)
      | inr other ↦ (let kept : t.search ≡ s.search = ground arith in rw kept ground arith)
    ]
  ]
]
