-- ===== src/Files/Tests.antt =====
-- The theorems about files at a file of one chunk.
use blockchain_sybil_attack.Base.{
  ℕ, ◌*◌, ap, take, drop, ◌≡◌, refl, ◌∙◌, sym, some, [], ◌∷◌, ◌++◌, Bytes, codes, ok, hex,
  hex_digit, get, put, arith, text_eq, text_eqb, ◌==◌, false,
}
use blockchain_sybil_attack.Chain.Platform.{Platform}
use blockchain_sybil_attack.Messages.{DataReply}
use blockchain_sybil_attack.Node.{State, P2pFile}
use blockchain_sybil_attack.Files.{chunk_size, chunks_from, add_file, store_file, hex_decode}
use blockchain_sybil_attack.Files.Chunks.{Piece}
use blockchain_sybil_attack.Files.Reassembly.{NoClash, add_file-store_file}
use blockchain_sybil_attack.Files.Transfer.Fetching.{
  Fetch, chunk, finished, download, resume_download, request_next,
}
use blockchain_sybil_attack.Files.Transfer.Duplicates.{twice, duplicated_reply_misfiled}
use blockchain_sybil_attack.Files.Transfer.Exchange.{run}
use blockchain_sybil_attack.Files.Transfer.Asked.{last_request}
use blockchain_sybil_attack.Files.Transfer.Shared.{added_file_downloads}
use blockchain_sybil_attack.Samples.{toy, sum, digest, digest_bytes, gossiper, home}

abbrev song : Bytes
song = 1 ∷ 2 ∷ 3 ∷ []

song_chunk : (p : Bytes) → Piece song p → p ≡ song
unfolding Piece
song_chunk p (k, short, e) =
    let only : k ≡ 0 = omega arith in
    e ∙ ap (λ k. take chunk_size (drop (chunk_size * k) song)) only

-- A file of one chunk has no clash.
song-NoClash : (lib : Platform) → NoClash lib song
unfolding NoClash
song-NoClash lib p q is_p is_q same = song_chunk p is_p ∙ sym (song_chunk q is_q)

add_file-store_file_example :
    (t : State) × (file : P2pFile) × (add_file toy gossiper (codes "song") song ≡ ok t)
    × (get t.files (codes "song") ≡ some file)
    × (file.size ≡ 3)
    × (file.meta_hash ≡ digest file.metafile)
    × (store_file file ≡ ok song)
add_file-store_file_example =
    add_file-store_file toy gossiper (codes "song") song (omega arith) (song-NoClash toy)

abbrev downloading : State
downloading = record gossiper {
  downloads = (codes "B", record { hash = hex (digest song); channel = 4 }) ∷ [];
}

abbrev song_reply : DataReply
song_reply = record {
  origin = codes "B";
  destination = codes "A";
  hop_limit = 10;
  file_name = codes "song";
  hash_value = digest song;
  content = song;
}

-- A digest that tells the chunk of the file from its metafile.
abbrev shifted : Platform
shifted = record toy {
  sha256 = λ d. digest (1 ∷ d);
  sha256_length = λ d. refl;
  sha256_bytes = λ d. digest_bytes (1 ∷ d);
}

abbrev song_file : P2pFile
song_file = record {
  file_name = codes "song";
  size = 3;
  metafile = digest (1 ∷ song);
  meta_hash = digest (1 ∷ digest (1 ∷ song));
  chunks = (hex (digest (1 ∷ song)), song) ∷ [];
}

abbrev before : State
before = record gossiper { next_hops = (codes "B", home) ∷ [] }

abbrev sharing : State
sharing = record before { files = (codes "song", song_file) ∷ [] }

-- A gossiper that knows the way to the one that shares.
abbrev asking : State
asking = record gossiper {
  me = record { address = home; identifier = codes "B" };
  next_hops = (codes "A", home) ∷ [];
}

song_added : add_file shifted before (codes "song") song ≡ ok sharing
unfolding add_file chunks_from put
song_added = refl

song_apart :
    (p : Bytes) → Piece song p → (hex song_file.meta_hash == hex (shifted.sha256 p)) ≡ false
unfolding hex hex_digit text_eqb sum
song_apart p is_p = rw (song_chunk p is_p) refl

added_file_downloads_example :
    (rounds : ℕ) × (r : State × Fetch) × (run shifted sharing rounds
        (ok (download asking (codes "song") song_file.meta_hash (codes "A") 4))
      ≡ ok r)
    × (r.1.stage ≡ finished song)
unfolding get text_eqb
added_file_downloads_example =
    added_file_downloads shifted before sharing asking (codes "song") song song_file home home 4
      song_added refl (song-NoClash shifted) song_apart refl refl refl refl

-- A download of a file of two chunks that waits for the first.
abbrev begun_song : P2pFile
begun_song = record {
  file_name = codes "song";
  size = 0;
  metafile = digest song ++ digest (9 ∷ []);
  meta_hash = [];
  chunks = [];
}

abbrev song_fetch : Fetch
song_fetch = record {
  filename = codes "song";
  metahash = [];
  channel = 4;
  stage = chunk 0 (hex (digest song)) (codes "09" ∷ []);
}

abbrev awaiting_song : State
awaiting_song = record downloading { files = (codes "song", begun_song) ∷ [] }

duplicated_reply_misfiled_example :
    (t : State) × (g : Fetch) × (misfiled : State) × (file1 : P2pFile) × (file' : P2pFile)
    × (resume_download (codes "B") (twice toy awaiting_song song_reply) song_fetch ≡ ok (t, g))
    × (get t.files (codes "song") ≡ some file1)
    × (get file1.chunks (hex (digest song)) ≡ some song)
    × (last_request t
        ≡ some (record {
          origin = codes "A";
          destination = codes "B";
          hop_limit = 10;
          file_name = codes "song";
          hash_value = hex_decode (codes "09");
        }))
    × (g.stage ≡ chunk 1 (codes "09") [])
    × (resume_download (codes "B") t g ≡ request_next (λ i. ok (codes "B")) misfiled g 2 [])
    × (get misfiled.files (codes "song") ≡ some file')
    × (get file'.chunks (codes "09") ≡ some song)
unfolding get text_eqb hex
duplicated_reply_misfiled_example =
    duplicated_reply_misfiled toy awaiting_song song_fetch song_reply 0 (hex (digest song))
      (codes "09" ∷ []) begun_song (codes "09") [] home refl refl
      (record { at = refl; pending = refl; empty = refl; known = refl; some_hash = refl }) refl refl
