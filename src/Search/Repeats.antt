-- ===== src/Search/Repeats.antt =====
-- A file with the same chunk twice, from the chunk maps of findMatches to the requests of
-- downloadGUI in code/filehandler.go.
use blockchain_sybil_attack.Base.{
  ℕ, zero, suc, ◌<◌, ◌≡◌, ◌≢◌, refl, ap, ◌∙◌, false, Bool-cases, Option-cases, inl, inr, none, some,
  List, [], ◌∷◌, Text, Bytes, Map, get, put, get-put, get_elem?, ◌==◌, ==_refl, ==_iff, nat_eq,
  text_eq, ok, panic, index_out_of_range, arith,
}
use blockchain_sybil_attack.Chain.Ledger.Shape.{member}
use blockchain_sybil_attack.Node.{State}
use blockchain_sybil_attack.Files.Transfer.Fetching.{Fetch, hash_bytes, located, request_next}
use blockchain_sybil_attack.Search.{chunk_index, chunk_map_of}
use blockchain_sybil_attack.Search.Results.{locate_first}

chunk_index-there :
    (mf : List Text) (k : Text) (n : ℕ) → chunk_index mf k ≡ some n → get_elem? mf n ≡ some k
unfolding chunk_index
chunk_index-there [] k n e = absurd (ground arith)
chunk_index-there (x ∷ mf) k n e = elim (Bool-cases (x == k)) [
  | inl same ↦ let first : n ≡ 0 = ground arith in rw first (ap some ((==_iff x k).0 same))
  | inr other ↦ elim (Option-cases (chunk_index mf k)) [
    | inl missing ↦ absurd (ground arith)
    | inr (m, found) ↦
        let next : n ≡ suc m = ground arith in rw next (chunk_index-there mf k m found)
  ]
]

-- The second place of a hash is never its index.
chunk_index-first :
    (mf : List Text) (h k : Text) (i j : ℕ)
    → i < j
    → get_elem? mf i ≡ some h
    → get_elem? mf j ≡ some h
    → chunk_index mf k ≢ some j
chunk_index-first [] h k i j less first second e = absurd (ground arith)
chunk_index-first (x ∷ mf) h k i zero less first second e = omega arith
chunk_index-first (x ∷ mf) h k zero (suc j) less first second e =
    let there : get_elem? mf j ≡ some k = chunk_index-there (x ∷ mf) k (suc j) e in
    unfold chunk_index in grind (arith, ==_refl k)
chunk_index-first (x ∷ mf) h k (suc i) (suc j) less first second e =
    elim (Option-cases (chunk_index mf k)) [
      | inl missing ↦ absurd (unfold chunk_index in ground arith)
      | inr (m, found) ↦
          let same : m ≡ j = unfold chunk_index in ground arith in
          chunk_index-first mf h k i j (omega arith) first second (found ∙ ap some same)
    ]

chunk_map_of-misses :
    (mf : List Text) (h : Text) (i j : ℕ)
    → i < j
    → get_elem? mf i ≡ some h
    → get_elem? mf j ≡ some h
    → (chunks : Map Text Bytes) → member j (chunk_map_of mf chunks) ≡ false
unfolding chunk_map_of
chunk_map_of-misses mf h i j less first second [] = refl
chunk_map_of-misses mf h i j less first second ((k, c) ∷ chunks) =
    let rest = chunk_map_of-misses mf h i j less first second chunks in
    elim (Option-cases (chunk_index mf k)) [
      | inl missing ↦ ground arith
      | inr (n, found) ↦
          let differ : n ≢ j =
            λ same. chunk_index-first mf h k i j less first second (found ∙ ap some same) in
          grind (arith, ==_iff n j)
    ]

locate_first-misses :
    (from : Text) (locations : Map ℕ (List Text)) (indices : List ℕ) (j : ℕ)
    → member j indices ≡ false
    → get (locate_first from locations indices) j ≡ get locations j
unfolding locate_first
locate_first-misses from locations [] j e = refl
locate_first-misses from locations (i ∷ indices) j e =
    locate_first-misses from (put locations i (from ∷ [])) indices j (ground arith)
    ∙ grind (arith, get-put locations i j (from ∷ []))

-- A file with the same chunk at two places that one peer has offered makes the gossiper panic when
-- it comes to request the second: the chunk map of the offer holds only the first place, so that no
-- peer is known for the second.
pub repeated_chunk_panics :
    (s : State) (f : Fetch) (from : Text) (mf : List Text) (chunks : Map Text Bytes) (h : Text)
    (i j : ℕ) (bytes : Bytes) (later : List Text)
    → i < j
    → get_elem? mf i ≡ some h
    → get_elem? mf j ≡ some h
    → hash_bytes h ≡ ok bytes
    → request_next (located (locate_first from [] (chunk_map_of mf chunks))) s f j (h ∷ later)
      ≡ panic index_out_of_range
unfolding request_next located get
repeated_chunk_panics s f from mf chunks h i j bytes later less first second decoded =
    let unknown : get (locate_first from [] (chunk_map_of mf chunks)) j ≡ none =
      locate_first-misses from [] (chunk_map_of mf chunks) j
        (chunk_map_of-misses mf h i j less first second chunks) in
    rw (decoded, unknown) refl
