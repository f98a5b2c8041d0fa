-- ===== src/Files/Transfer/Shared.antt =====
-- A file that one gossiper shares and another downloads, of code/filehandler.go.
use blockchain_sybil_attack.Base.{
  ℕ, suc, ◌*◌, ◌≤◌, ◌++◌, take, drop, length-drop, length-append, text_eqb, Outcome, panic, ◌≡◌,
  refl, ap, sym, ◌∙◌, false, some, none, List, [], ◌∷◌, map, Text, Bytes, All, Map, Option, get,
  put, get-put_self, ◌==◌, nat_eq, text_eq, length, hex, ok, arith,
}
use blockchain_sybil_attack.Chain.Platform.{Platform}
use blockchain_sybil_attack.Messages.{Address}
use blockchain_sybil_attack.Node.{P2pFile, State}
use blockchain_sybil_attack.Files.{chunk_size, add_file, store_file, split_metafile}
use blockchain_sybil_attack.Files.Chunks.{flat, Piece, stored}
use blockchain_sybil_attack.Files.Reassembly.{
  NoClash, stored-keeps, shared_file, add_file-shared, store_file-shared,
}
use blockchain_sybil_attack.Files.Transfer.{queue}
use blockchain_sybil_attack.Files.Transfer.Fetching.{Fetch, finished, download}
use blockchain_sybil_attack.Files.Transfer.Hex.{hex_not_empty}
use blockchain_sybil_attack.Files.Transfer.Exchange.{run}
use blockchain_sybil_attack.Files.Transfer.Completion.{download_completes}
use blockchain_sybil_attack.Files.Transfer.Rounds.{Serves}

nonempty : (xs : Bytes) → 1 ≤ length xs → (xs == []) ≡ false
unfolding text_eqb
nonempty [] some_byte = absurd (omega arith)
nonempty (x ∷ xs) some_byte = refl

nonempty-take : (n : ℕ) (xs : Bytes) → 1 ≤ length xs → 1 ≤ length (take (suc n) xs)
nonempty-take n [] some_byte = some_byte
nonempty-take n (x ∷ xs) some_byte = omega arith

-- No chunk is empty.
Piece-nonempty : (content p : Bytes) → Piece content p → (p == []) ≡ false
unfolding Piece
Piece-nonempty content p (k, short, e) = rw e (
    nonempty (take chunk_size (drop (chunk_size * k) content)) (
      nonempty-take 7999 (drop (chunk_size * k) content)
        (omega (arith, length-drop (chunk_size * k) content))))

-- The metafile of a file that is not empty is not empty.
hashes-nonempty :
    (lib : Platform) (ps : List Bytes)
    → 1 ≤ length (flat ps)
    → (flat (map lib.sha256 ps) == []) ≡ false
unfolding flat
hashes-nonempty lib [] some_byte = absurd (omega arith)
hashes-nonempty lib (p ∷ ps) some_byte =
    nonempty (lib.sha256 p ++ flat (map lib.sha256 ps))
      (omega (arith, length-append (lib.sha256 p) (flat (map lib.sha256 ps)), lib.sha256_length p))

added_not_empty :
    (lib : Platform) (s t : State) (name : Text) (content : Bytes)
    → add_file lib s name content ≡ ok t
    → 1 ≤ length content
unfolding add_file
added_not_empty lib s t name [] e = absurd (ground arith)
added_not_empty lib s t name (b ∷ content) e = omega arith

module _ (lib : Platform) (content : Bytes) (clash : NoClash lib content) (file : P2pFile)
    (apart : (p : Bytes)
      → Piece content p
      → (hex file.meta_hash == hex (lib.sha256 p)) ≡ false) where
  chunk-Serves :
      (p : Bytes)
      → Piece content p
      → get file.chunks (hex (lib.sha256 p)) ≡ some p
      → Serves lib file (hex (lib.sha256 p))
  chunk-Serves p is_p there = record {
    bytes = lib.sha256 p;
    is_hex = refl;
    are_bytes = lib.sha256_bytes p;
    not_empty = hex_not_empty (lib.sha256 p) (omega (arith, lib.sha256_length p));
    content = p;
    there = there;
    some_content = Piece-nonempty content p is_p;
    hashed = refl;
    apart = apart p is_p;
  }

  stored-Serves :
      (chunks : Map Text Bytes) (ps : List Bytes)
      → All (Piece content) ps
      → file.chunks ≡ stored lib chunks ps
      → All (Serves lib file) (map hex (map lib.sha256 ps))
  unfolding stored
  stored-Serves chunks [] all same = tt
  stored-Serves chunks (p ∷ ps) (is_p, all) same =
      let first : get (put chunks (hex (lib.sha256 p)) p) (hex (lib.sha256 p)) ≡ some p =
        get-put_self chunks (hex (lib.sha256 p)) p in
      (
        chunk-Serves p is_p (
            ap (λ cs. get cs (hex (lib.sha256 p))) same
            ∙ stored-keeps lib content p (put chunks (hex (lib.sha256 p)) p) ps clash is_p all
                first),
        stored-Serves (put chunks (hex (lib.sha256 p)) p) ps all same,
      )

-- A file that was added with `addFile` is downloaded whole by any gossiper that has no file of the
-- name, when it and the one that shares the file know a way to each other: after finitely many rounds,
-- in each of which the request that was sent last is handled by the one that shares and its reply by
-- the one that asked, the download ends with the content that was added; provided that no two
-- different chunks share a hash and that no chunk has the hash of the metafile.
pub added_file_downloads :
    (lib : Platform) (before server client : State) (name : Text) (content : Bytes) (file : P2pFile)
    (next_hop back : Address) (channel : ℕ)
    → add_file lib before name content ≡ ok server
    → get server.files name ≡ some file
    → NoClash lib content
    → ((p : Bytes) → Piece content p → (hex file.meta_hash == hex (lib.sha256 p)) ≡ false)
    → get client.files name ≡ none
    → get client.next_hops server.me.identifier ≡ some next_hop
    → get server.next_hops client.me.identifier ≡ some back
    → queue client channel ≡ []
    → (rounds : ℕ) × (r : State × Fetch) × (run lib server rounds
          (ok (download client name file.meta_hash server.me.identifier channel))
        ≡ ok r)
      × (r.1.stage ≡ finished content)
unfolding shared_file
added_file_downloads lib before server client name content file next_hop back channel added shared
      clash apart missing route returns empty =
    let some_byte = added_not_empty lib before server name content added in
    let (ps, adds, whole, all, split) = add_file-shared lib before name content some_byte in
    let same : file ≡ shared_file lib name content ps =
      let found : Outcome State → Option P2pFile =
        λ o. elim o [ ok t ↦ get t.files name | panic p ↦ none ] in
      let twice : some file ≡ some (shared_file lib name content ps) =
        sym shared
        ∙ ap found (sym added ∙ adds)
        ∙ get-put_self before.files name (shared_file lib name content ps) in
      cc twice in
    let serves =
      stored-Serves lib content clash file apart [] ps all (ap (λ (f : P2pFile). f.chunks) same) in
    let some_metafile : (file.metafile == []) ≡ false =
      rw same (hashes-nonempty lib ps (rw whole some_byte)) in
    let (r, written, ends, stage, stores) =
      download_completes lib server file name next_hop shared client.me.identifier back returns
        some_metafile client channel (map hex (map lib.sha256 ps))
        (ap (λ (f : P2pFile). f.meta_hash) same
          ∙ sym (ap (λ (f : P2pFile). lib.sha256 f.metafile) same))
        (ap (λ (f : P2pFile). split_metafile f.metafile) same ∙ split) serves missing route refl
        empty in
    (
      suc (length (map hex (map lib.sha256 ps))),
      r,
      ends,
      stage
          ∙ ap finished (
              let again : ok written ≡ ok content =
                sym stores
                ∙ ap store_file same
                ∙ store_file-shared lib name content ps clash whole all split in
              cc again),
    )
