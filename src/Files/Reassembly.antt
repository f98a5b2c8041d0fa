-- ===== src/Files/Reassembly.antt =====
-- Files that are added and put together again, of code/filehandler.go.
use blockchain_sybil_attack.Base.{
  ◌+◌, ◌≤◌, ◌≡◌, refl, ap, ◌∙◌, Bool-cases, inl, inr, Option, some, List, [], ◌∷◌, ◌++◌, map, Text,
  Bytes, Map, get, put, get-put, ◌==◌, ==_iff, ==_refl, nat_eq, text_eq, length, All, hex,
  if◌then◌else◌, ok, ◌>>=◌, arith,
}
use blockchain_sybil_attack.Chain.Platform.{Platform}
use blockchain_sybil_attack.Node.{P2pFile, State}
use blockchain_sybil_attack.Files.{
  add_file, split_metafile, or_nil, chunks_joined, store_file, hash,
}
use blockchain_sybil_attack.Files.Chunks.{flat, split_metafile-flat, Piece, stored, Cut, cut}

-- The chunks of one content that share a hash are the same.
unfoldable pub NoClash : Platform → Bytes → Type 0
NoClash lib content =
    (p q : Bytes)
    → Piece content p
    → Piece content q
    → hex (lib.sha256 p) ≡ hex (lib.sha256 q)
    → p ≡ q

kept_at :
    (k j : Text) (q p : Bytes) (found : Option Bytes)
    → found ≡ some p
    → (k ≡ j → q ≡ p)
    → (if k == j then some q else found) ≡ some p
kept_at k j q p found e same = elim (Bool-cases (k == j)) [
  | inl equal ↦ let agree = same ((==_iff k j).0 equal) in ground arith
  | inr differ ↦ ground arith
]

pub stored-keeps :
    (lib : Platform) (content : Bytes) (p : Bytes) (chunks : Map Text Bytes) (ps : List Bytes)
    → NoClash lib content
    → Piece content p
    → All (Piece content) ps
    → get chunks (hex (lib.sha256 p)) ≡ some p
    → get (stored lib chunks ps) (hex (lib.sha256 p)) ≡ some p
unfolding stored NoClash
stored-keeps lib content p chunks [] clash is_p all e = e
stored-keeps lib content p chunks (q ∷ ps) clash is_p (is_q, all) e =
    stored-keeps lib content p (put chunks (hex (lib.sha256 q)) q) ps clash is_p all (
      get-put chunks (hex (lib.sha256 q)) (hex (lib.sha256 p)) q
      ∙ kept_at (hex (lib.sha256 q)) (hex (lib.sha256 p)) q p (get chunks (hex (lib.sha256 p))) e
          (clash q p is_q is_p))

joined :
    (lib : Platform) (content : Bytes) (chunks : Map Text Bytes) (ps : List Bytes)
    → NoClash lib content
    → All (Piece content) ps
    → chunks_joined (stored lib chunks ps) (map hex (map lib.sha256 ps)) ≡ flat ps
unfolding stored flat chunks_joined
joined lib content chunks [] clash all = refl
joined lib content chunks (p ∷ ps) clash (is_p, all) =
    let now = stored-keeps lib content p (put chunks (hex (lib.sha256 p)) p) ps clash is_p all (
      get-put chunks (hex (lib.sha256 p)) (hex (lib.sha256 p)) p
      ∙ ground (arith, ==_refl (hex (lib.sha256 p)))) in
    let later = joined lib content (put chunks (hex (lib.sha256 p)) p) ps clash all in
    ap
      (λ found.
        or_nil found
        ++ chunks_joined (stored lib (put chunks (hex (lib.sha256 p)) p) ps)
            (map hex (map lib.sha256 ps)))
      now
    ∙ ap (◌++◌ p) later

All-sha256 : (lib : Platform) (ps : List Bytes) → All (λ h. length h ≡ 32) (map lib.sha256 ps)
All-sha256 lib [] = tt
All-sha256 lib (p ∷ ps) = (lib.sha256_length p, All-sha256 lib ps)

-- The entry of a file of which the chunks are `ps`.
unfoldable pub shared_file : Platform → Text → Bytes → List Bytes → P2pFile
shared_file lib name content ps = record {
  file_name = name;
  size = length content;
  metafile = flat (map lib.sha256 ps);
  meta_hash = lib.sha256 (flat (map lib.sha256 ps));
  chunks = stored lib [] ps;
}

pub add_file-shared :
    (lib : Platform) (s : State) (name : Text) (content : Bytes)
    → 1 ≤ length content
    → (ps : List Bytes) × (add_file lib s name content
        ≡ ok (record s { files = put s.files name (shared_file lib name content ps) }))
      × (flat ps ≡ content)
      × All (Piece content) ps
      × (split_metafile (flat (map lib.sha256 ps)) ≡ ok (map hex (map lib.sha256 ps)))
unfolding add_file hash Cut shared_file
add_file-shared lib s name content some_byte =
    let (ps, run, whole, all) =
      cut lib (length content + 1) content 0 [] [] (omega arith) (omega arith) in
    (ps, ground arith, whole, all, split_metafile-flat (map lib.sha256 ps) (All-sha256 lib ps))

pub store_file-shared :
    (lib : Platform) (name : Text) (content : Bytes) (ps : List Bytes)
    → NoClash lib content
    → flat ps ≡ content
    → All (Piece content) ps
    → split_metafile (flat (map lib.sha256 ps)) ≡ ok (map hex (map lib.sha256 ps))
    → store_file (shared_file lib name content ps) ≡ ok content
unfolding store_file shared_file
store_file-shared lib name content ps clash whole all split =
    ap (λ o. o >>= (λ hashes. ok (chunks_joined (stored lib [] ps) hashes))) split
    ∙ ap ok (joined lib content [] ps clash all ∙ whole)

-- A file that is not empty can be added; it is then in the table under its name, with its size and
-- the hash of its metafile, and `storeFile` writes its content back, when no two different chunks of
-- it share a hash.
pub add_file-store_file :
    (lib : Platform) (s : State) (name : Text) (content : Bytes)
    → 1 ≤ length content
    → NoClash lib content
    → (t : State) × (file : P2pFile) × (add_file lib s name content ≡ ok t)
      × (get t.files name ≡ some file)
      × (file.size ≡ length content)
      × (file.meta_hash ≡ lib.sha256 file.metafile)
      × (store_file file ≡ ok content)
unfolding shared_file
add_file-store_file lib s name content some_byte clash =
    let (ps, run, whole, all, split) = add_file-shared lib s name content some_byte in
    let file = shared_file lib name content ps in
    (
      record s { files = put s.files name file },
      file,
      run,
      get-put s.files name name file ∙ ground (arith, ==_refl name),
      refl,
      refl,
      store_file-shared lib name content ps clash whole all split,
    )
