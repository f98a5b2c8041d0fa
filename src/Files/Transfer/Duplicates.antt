-- ===== src/Files/Transfer/Duplicates.antt =====
-- A data reply of code/filehandler.go that comes twice.
use blockchain_sybil_attack.Base.{
  ℕ, ◌+◌, ◌≡◌, refl, ap, ◌∙◌, true, false, some, List, [], ◌∷◌, Text, Bytes, get, put, get-put_self,
  ◌==◌, ==_iff, ==_refl, nat_eq, text_eq, hex, Outcome, ok, arith,
}
use blockchain_sybil_attack.Chain.Platform.{Platform}
use blockchain_sybil_attack.Messages.{Address, DataReply, Gossiper}
use blockchain_sybil_attack.Node.{P2pFile, State}
use blockchain_sybil_attack.Files.{or_nil, hex_decode, store_data}
use blockchain_sybil_attack.Files.Transfer.{
  queue, stop_timer_and_send_data, send_data_request, handle_data_reply,
}
use blockchain_sybil_attack.Files.Transfer.Fetching.{
  chunk, Fetch, all_hex, hash_bytes, request_next, take_data, receive_from, resume, resume_download,
}
use blockchain_sybil_attack.Files.Transfer.Asked.{last_request, last_request-send_data_request}
use blockchain_sybil_attack.Files.Transfer.Replies.{awaits, handle_data_reply_downloads}
use blockchain_sybil_attack.Files.Transfer.Stored.{with_chunk, store_data-known}

send_data_request-kept :
    (s : State) (dest name : Text) (h : Bytes) (channel : ℕ)
    → ((send_data_request s dest name h channel).channels ≡ s.channels)
      × ((send_data_request s dest name h channel).files ≡ s.files)
unfolding send_data_request
send_data_request-kept s dest name h channel = ground arith

-- One receive of a download that waits for a chunk.
resume_download-chunk :
    (from : Text) (s : State) (f : Fetch) (index : ℕ) (h : Text) (later : List Text)
    (content : Bytes) (rest : List Bytes)
    → f.stage ≡ chunk index h later
    → queue s f.channel ≡ content ∷ rest
    → resume_download from s f
      ≡ request_next
          (λ i. ok from)
          (store_data (record s { channels = put s.channels f.channel rest }) f.filename h content)
          f
          (index + 1)
          later
unfolding resume_download resume receive_from take_data
resume_download-chunk from s f index h later content rest at waiting =
    let peers : ℕ → Outcome Text = λ i. ok from in
    ap (receive_from peers s f) waiting
    ∙ ap
        (λ st. take_data peers (record s { channels = put s.channels f.channel rest }) f st content)
        at

request_next-more :
    (from : Text) (s : State) (f : Fetch) (index : ℕ) (h : Text) (later : List Text)
    → all_hex h ≡ true
    → request_next (λ i. ok from) s f index (h ∷ later)
      ≡ ok (
        send_data_request s from f.filename (hex_decode h) f.channel,
        record f { stage = chunk index h later },
      )
unfolding request_next hash_bytes
request_next-more from s f index h later good = rw good refl

-- The state of a download, at which it waits for a chunk with the hash `h`.
pub record WaitsFor (s : State) (f : Fetch) (from : Text) (index : ℕ) (h : Text) (later : List Text)
    (file : P2pFile) : Type 0 where
  pub at : f.stage ≡ chunk index h later
  pub pending : get s.downloads from ≡ some (record { hash = h; channel = f.channel })
  pub empty : queue s f.channel ≡ []
  pub known : get s.files f.filename ≡ some file
  pub some_hash : (h == []) ≡ false

-- The state after a reply has come twice.
abbrev pub twice : Platform → State → DataReply → State
twice lib s dr = handle_data_reply lib (handle_data_reply lib s dr) dr

module _ (lib : Platform) (s : State) (f : Fetch) (dr : DataReply) (index : ℕ) (h : Text)
    (later : List Text) (file : P2pFile) where
  twice-queue :
      WaitsFor s f dr.origin index h later file
      → h ≡ hex (lib.sha256 dr.content)
      → queue (twice lib s dr) f.channel ≡ dr.content ∷ dr.content ∷ []
  unfolding awaits
  twice-queue w match =
      let once = handle_data_reply lib s dr in
      let (fed, same, _) = handle_data_reply_downloads lib s dr f.channel in
      let (fed_again, _, _) = handle_data_reply_downloads lib once dr f.channel in
      let awaited : awaits lib dr f.channel (get s.downloads dr.origin) ≡ true =
        rw (w.pending, w.some_hash, ==_refl f.channel)
          ((==_iff h (hex (lib.sha256 dr.content))).1 match) in
      let awaited_again : awaits lib dr f.channel (get once.downloads dr.origin) ≡ true =
        rw same awaited in
      let first_one : queue once f.channel ≡ dr.content ∷ [] = rw (awaited, w.empty) at fed in
      rw (awaited_again, first_one) at fed_again

  twice-files : (twice lib s dr).files ≡ s.files
  twice-files =
      (handle_data_reply_downloads lib (handle_data_reply lib s dr) dr f.channel).2
      ∙ (handle_data_reply_downloads lib s dr f.channel).2

  handle_data_reply-kept :
      (u : State)
      → ((handle_data_reply lib u dr).me ≡ u.me)
        × ((handle_data_reply lib u dr).next_hops ≡ u.next_hops)
  unfolding handle_data_reply stop_timer_and_send_data
  handle_data_reply-kept u = (ground arith, ground arith)

  -- When the reply that a download waits for comes twice before the download goes on, and there is a
  -- way to the peer and a next chunk with a hash in hexadecimal, the download stores the content under
  -- the hash that it has asked for and asks for the next chunk; then it stores the same content under
  -- the hash of the next chunk, and goes on as if that had come.
  pub duplicated_reply_misfiled :
      (next_hash : Text) (after : List Text) (next_hop : Address)
      → get s.next_hops dr.origin ≡ some next_hop
      → later ≡ next_hash ∷ after
      → WaitsFor s f dr.origin index h later file
      → h ≡ hex (lib.sha256 dr.content)
      → all_hex next_hash ≡ true
      → (t : State) × (g : Fetch) × (misfiled : State) × (file1 : P2pFile) × (file' : P2pFile)
        × (resume_download dr.origin (twice lib s dr) f ≡ ok (t, g))
        × (get t.files f.filename ≡ some file1)
        × (get file1.chunks h ≡ some dr.content)
        × (last_request t
            ≡ some (record {
              origin = s.me.identifier;
              destination = dr.origin;
              hop_limit = 10;
              file_name = f.filename;
              hash_value = hex_decode next_hash;
            }))
        × (g.stage ≡ chunk (index + 1) next_hash after)
        × (resume_download dr.origin t g
            ≡ request_next (λ i. ok dr.origin) misfiled g (index + 1 + 1) after)
        × (get misfiled.files f.filename ≡ some file')
        × (get file'.chunks next_hash ≡ some dr.content)
  duplicated_reply_misfiled next_hash after next_hop route more w match good =
      let c = dr.content in
      let from = dr.origin in
      let one_left = record (twice lib s dr) {
        channels = put (twice lib s dr).channels f.channel (c ∷ []);
      } in
      let stored = store_data one_left f.filename h c in
      let t = send_data_request stored from f.filename (hex_decode next_hash) f.channel in
      let g = record f { stage = chunk (index + 1) next_hash after } in
      let none_left = record t { channels = put t.channels f.channel [] } in
      let misfiled = store_data none_left f.filename next_hash c in
      let once_file = with_chunk file h c in
      let first_step : resume_download from (twice lib s dr) f ≡ ok (t, g) =
        resume_download-chunk from (twice lib s dr) f index h later c (c ∷ []) w.at
          (twice-queue w match)
        ∙ ap (request_next (λ i. ok from) stored f (index + 1)) more
        ∙ request_next-more from stored f (index + 1) next_hash after good in
      let known : get one_left.files f.filename ≡ some file =
        ap (λ files. get files f.filename) twice-files ∙ w.known in
      let kept = send_data_request-kept stored from f.filename (hex_decode next_hash) f.channel in
      let stored_is = store_data-known one_left f.filename h c file known in
      let queued : queue t f.channel ≡ c ∷ [] =
        ap (λ m. or_nil (get m f.channel)) (kept.0 ∙ ap (λ (x : State). x.channels) stored_is)
        ∙ ap or_nil (get-put_self (twice lib s dr).channels f.channel (c ∷ [])) in
      let second_step =
        resume_download-chunk from t g (index + 1) next_hash after c [] refl queued in
      let first_kept = handle_data_reply-kept s in
      let again_kept = handle_data_reply-kept (handle_data_reply lib s dr) in
      let me_is : stored.me ≡ s.me =
        ap (λ (x : State). x.me) stored_is ∙ again_kept.0 ∙ first_kept.0 in
      let hops_are : stored.next_hops ≡ s.next_hops =
        ap (λ (x : State). x.next_hops) stored_is ∙ again_kept.1 ∙ first_kept.1 in
      let asked : last_request t
          ≡ some (record {
            origin = s.me.identifier;
            destination = from;
            hop_limit = 10;
            file_name = f.filename;
            hash_value = hex_decode next_hash;
          }) =
        last_request-send_data_request stored from f.filename (hex_decode next_hash) f.channel
          next_hop (ap (λ m. get m from) hops_are ∙ route)
        ∙ ap
            (λ (m : Gossiper). some (record {
              origin = m.identifier;
              destination = from;
              hop_limit = 10;
              file_name = f.filename;
              hash_value = hex_decode next_hash;
            }))
            me_is in
      let first_got : get t.files f.filename ≡ some once_file =
        ap (λ files. get files f.filename) (kept.1 ∙ ap (λ (x : State). x.files) stored_is)
        ∙ get-put_self one_left.files f.filename once_file in
      let first_under : get once_file.chunks h ≡ some c =
        unfold with_chunk in get-put_self file.chunks h c in
      let known_again : get none_left.files f.filename ≡ some once_file = first_got in
      let misfiled_is = store_data-known none_left f.filename next_hash c once_file known_again in
      let twice_file = with_chunk once_file next_hash c in
      let got : get misfiled.files f.filename ≡ some twice_file =
        ap (λ (x : State). get x.files f.filename) misfiled_is
        ∙ get-put_self none_left.files f.filename twice_file in
      let under : get twice_file.chunks next_hash ≡ some c =
        unfold with_chunk in get-put_self once_file.chunks next_hash c in
      (
        t, g, misfiled, once_file, twice_file, first_step, first_got, first_under, asked, refl,
        second_step, got, under,
      )
