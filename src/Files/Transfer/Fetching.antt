-- ===== src/Files/Transfer/Fetching.antt =====
-- `download` and `downloadGUI` of code/filehandler.go, and the handler that starts them of
-- code/gossiper.go. Each is a goroutine that stops where it receives from its channel: `Fetch` is
-- where it stands, and one call of `resume` takes it from there to the next receive.
use blockchain_sybil_attack.Base.{
  ℕ, ◌+◌, Bool, true, false, not, ◌&&◌, Option, none, some, List, [], ◌∷◌, ◌++◌, Text, Bytes, Map,
  get, put, ◌==◌, nat_eq, text_eq, hex, is_some, if◌then◌else◌, Outcome, ok, panic, bad_hex,
  index_out_of_range, ◌>>=◌,
}
use blockchain_sybil_attack.Messages.{DataRequest}
use blockchain_sybil_attack.Node.{State}
use blockchain_sybil_attack.Files.{
  or_nil, hex_value, hex_decode, split_metafile, store_file, store_data, array_contains,
}
use blockchain_sybil_attack.Files.Transfer.{queue, send_data_request}

-- What is received next: the metafile, or the chunk number `index` with its hash, and the hashes
-- after it. At the end, the bytes that are written.
pub data Stage : Type 0 where
  metafile : Stage
  chunk : (index : ℕ) → Text → List Text → Stage
  finished : Bytes → Stage

pub record Fetch : Type 0 where
  pub filename : Text
  pub metahash : Bytes
  pub channel : ℕ
  pub stage : Stage

abbrev pub all_hex : Text → Bool
all_hex [] = true
all_hex (c ∷ []) = false
all_hex (c ∷ d ∷ cs) = is_some (hex_value c) && is_some (hex_value d) && all_hex cs

-- `hex.DecodeString` with the panic on its error.
unfoldable pub hash_bytes : Text → Outcome Bytes
unfolding hex_decode
hash_bytes h = if all_hex h then ok (hex_decode h) else panic bad_hex

-- `storeFile(state.files[filename])`, of the zero value for a missing name.
unfoldable pub store_named : State → Text → Outcome Bytes
store_named s filename = elim (get s.files filename) [ none ↦ ok [] | some file ↦ store_file file ]

-- The request of the next chunk; `source` gives the peer that chunk number `index` is asked from.
unfoldable pub request_next :
    (ℕ → Outcome Text) → State → Fetch → ℕ → List Text → Outcome (State × Fetch)
unfolding store_named
request_next source s f index [] = do
  content ← store_named s f.filename
  ok (s, record f { stage = finished content })
request_next source s f index (h ∷ later) = do
  wanted ← hash_bytes h
  peer ← source index
  ok (
    send_data_request s peer f.filename wanted f.channel,
    record f { stage = chunk index h later },
  )

-- What is done with the data that was received.
unfoldable pub take_data :
    (ℕ → Outcome Text) → State → Fetch → Stage → Bytes → Outcome (State × Fetch)
take_data source s f metafile content = do
  hashes ← split_metafile content
  request_next source (store_data s f.filename (hex f.metahash) content) f 0 hashes
take_data source s f (chunk index h later) content =
    request_next source (store_data s f.filename h content) f (index + 1) later
take_data source s f (finished written) content = ok (s, f)

unfoldable pub receive_from :
    (ℕ → Outcome Text) → State → Fetch → List Bytes → Outcome (State × Fetch)
receive_from source s f [] = ok (s, f)
receive_from source s f (content ∷ rest) =
    take_data source (record s { channels = put s.channels f.channel rest }) f f.stage content

-- From one receive to the next; while nothing has been sent on the channel nothing happens.
unfoldable pub resume : (ℕ → Outcome Text) → State → Fetch → Outcome (State × Fetch)
resume source s f = receive_from source s f (queue s f.channel)

-- `download`, which asks `from` for everything, on the new channel number `channel`.
unfoldable pub download : State → Text → Bytes → Text → ℕ → State × Fetch
download s filename metahash from channel = (
  send_data_request s from filename metahash channel,
  record { filename = filename; metahash = metahash; channel = channel; stage = metafile },
)

unfoldable pub resume_download : Text → State → Fetch → Outcome (State × Fetch)
unfolding resume
resume_download from s f = resume (λ index. ok from) s f

-- The loop of `downloadGUI` that collects the peers with chunks.
unfoldable pub add_possible : List Text → List Text → List Text
unfolding array_contains
add_possible possible [] = possible
add_possible possible (p ∷ peers) =
    add_possible (if not (array_contains possible p) then possible ++ p ∷ [] else possible) peers

unfoldable pub possible_peers : List Text → Map ℕ (List Text) → List Text
unfolding add_possible
possible_peers possible [] = possible
possible_peers possible ((index, peers) ∷ locations) =
    possible_peers (add_possible possible peers) locations

abbrev pub first_of : List Text → Outcome Text
first_of [] = panic index_out_of_range
first_of (p ∷ peers) = ok p

-- `searchResults.ChunksLocations[uint64(index)][0]`.
unfoldable pub located : Map ℕ (List Text) → ℕ → Outcome Text
located locations index = first_of (or_nil (get locations index))

-- `downloadGUI`; `none` when nothing was found under the name.
unfoldable pub download_gui : State → Text → ℕ → Outcome (Option (State × Fetch))
unfolding possible_peers download
download_gui s filename channel = elim (get (or_nil s.search) filename) [
  | none ↦ ok none
  | some found ↦ do
    from ← first_of (possible_peers [] found.chunks_locations)
    ok (some (download s filename found.metafile_hash from channel))
]

unfoldable pub resume_gui : Map ℕ (List Text) → State → Fetch → Outcome (State × Fetch)
unfolding resume
resume_gui locations s f = resume (located locations) s f

-- `receivesDataRequestFromClient`, with the goroutine that it starts.
unfoldable pub receives_data_request_from_client :
    DataRequest → State → ℕ → Outcome (Option (State × Fetch))
unfolding download_gui
receives_data_request_from_client dr s channel =
    if dr.destination == []
    then download_gui s dr.file_name channel
    else ok (some (download s dr.file_name dr.hash_value dr.destination channel))
