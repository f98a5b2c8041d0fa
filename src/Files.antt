-- ===== src/Files.antt =====
-- Shared files of code/filehandler.go: their chunks and metafiles, the store, and the requests and
-- replies for data; the handlers of these of code/gossiper.go.
-- A nil slice is the empty one: no slice that the code stores is empty and not nil.
pub mod Chunks
pub mod Reassembly
pub mod Transfer
mod Tests
use blockchain_sybil_attack.Base.{
  ℕ, zero, suc, ◌+◌, ◌-◌, ◌*◌, Bool, true, false, ◌&&◌, Option, none, some, List, [], ◌∷◌, ◌++◌,
  Text, Bytes, Map, get, put, ◌==◌, nat_eq, text_eq, length, take, drop, ltb, leb, hex,
  if◌then◌else◌, Outcome, ok, panic, index_out_of_range, out_of_fuel, fatal, fueled, ◌>>=◌,
}
use blockchain_sybil_attack.Chain.Platform.{Platform}
use blockchain_sybil_attack.Node.{P2pFile, State}

unfoldable pub hash : Platform → Bytes → Bytes
hash lib chunk = lib.sha256 chunk

abbrev pub chunk_size : ℕ
chunk_size = 8000

-- The loop of `addFile` from offset `i`, with fuel: the metafile and the chunks found so far.
unfoldable pub chunks_from :
    Platform → ℕ → Bytes → ℕ → Bytes → Map Text Bytes → Option (Bytes × Map Text Bytes)
unfolding hash
chunks_from lib zero content i metafile chunks = none
chunks_from lib (suc fuel) content i metafile chunks =
    let end = if ltb (length content) (i + chunk_size) then length content else i + chunk_size in
    let chunk = take (end - i) (drop i content) in
    let h = hash lib chunk in
    let more =
      chunks_from lib fuel content (i + chunk_size) (metafile ++ h) (put chunks (hex h) chunk) in
    if ltb i (length content) then more else some (metafile, chunks)

-- `addFile` on what `file.Read` gave; of an empty file it gives the error of its end.
unfoldable pub add_file : Platform → State → Text → Bytes → Outcome State
unfolding hash
add_file lib s name content =
    let looped = fueled (chunks_from lib (length content + 1) content 0 [] []) in
    if length content == 0 then panic fatal else (do
      found ← looped
      ok (record s {
        files = put s.files name (record {
          file_name = name;
          size = length content;
          metafile = found.0;
          meta_hash = hash lib found.0;
          chunks = found.1;
        });
      }))

-- The hashes that stand one after the other in a metafile, `fuel` at most. `metafile[i:i+32]` past the
-- end is a panic: the capacity of the slice is taken to be its length.
unfoldable pub split_from : ℕ → Bytes → Outcome (List Text)
split_from zero metafile = panic out_of_fuel
split_from (suc fuel) metafile =
    let later = split_from fuel (drop 32 metafile) in
    if 0 == length metafile
    then ok []
    else if ltb (length metafile) 32
    then panic index_out_of_range
    else (later >>= (λ hashes. ok (hex (take 32 metafile) ∷ hashes)))

unfoldable pub split_metafile : Bytes → Outcome (List Text)
split_metafile metafile = split_from (length metafile + 1) metafile

abbrev pub or_nil {ℓ} : {A : Type ℓ} → Option (List A) → List A
or_nil none = []
or_nil (some xs) = xs

unfoldable pub array_contains : List Text → Text → Bool
array_contains [] str = false
array_contains (s ∷ array) str = if s == str then true else array_contains array str

unfoldable pub chunks_joined : Map Text Bytes → List Text → Bytes
chunks_joined chunks [] = []
chunks_joined chunks (h ∷ hashes) = or_nil (get chunks h) ++ chunks_joined chunks hashes

-- The bytes that `storeFile` writes.
unfoldable pub store_file : P2pFile → Outcome Bytes
store_file file = do hashes ← split_metafile file.metafile; ok (chunks_joined file.chunks hashes)

-- `hex.DecodeString` up to its first error, which `storeData` ignores.
abbrev pub hex_value : ℕ → Option ℕ
hex_value c =
    if leb 48 c && leb c 57
    then some (c - 48)
    else if leb 97 c && leb c 102
    then some (c - 87)
    else if leb 65 c && leb c 70
    then some (c - 55)
    else none

unfoldable pub hex_decode : Text → Bytes
hex_decode [] = []
hex_decode (c ∷ []) = []
hex_decode (c ∷ d ∷ cs) = elim (hex_value c) [
  | none ↦ []
  | some high ↦ elim (hex_value d) [ none ↦ [] | some low ↦ (16 * high + low) ∷ hex_decode cs ]
]

unfoldable pub data_deep_copy : Bytes → Bytes
data_deep_copy [] = []
data_deep_copy (b ∷ content) = b ∷ data_deep_copy content

unfoldable pub get_data : State → Text → Text → Bytes
get_data s filename h = elim (get s.files filename) [
  | none ↦ []
  | some file ↦ if hex file.meta_hash == h then file.metafile else or_nil (get file.chunks h)
]

-- `file` is a copy of the entry: the write to its map of chunks is seen, that to its size is lost.
unfoldable pub store_data : State → Text → Text → Bytes → State
unfolding data_deep_copy hex_decode
store_data s filename h content = elim (get s.files filename) [
  | none ↦ record s {
    files = put s.files filename (record {
      file_name = filename;
      size = 0;
      metafile = data_deep_copy content;
      meta_hash = hex_decode h;
      chunks = [];
    });
  }
  | some file ↦ record s {
    files =
        put s.files filename (record file { chunks = put file.chunks h (data_deep_copy content) });
  }
]
