-- ===== src/Files/Transfer/Rounds.antt =====
-- The rounds of a download of code/filehandler.go in which the chunks come.
use blockchain_sybil_attack.Base.{
  ℕ, suc, ◌+◌, ◌≡◌, refl, ap, sym, ◌∙◌, false, some, List, [], ◌∷◌, ◌++◌, append_assoc, append-nil,
  Text, Bytes, AreBytes, All, get, put, get-put, get-put_self, ◌==◌, ==_iff, ==_refl, nat_eq,
  text_eq, hex, length, ok, arith,
}
use blockchain_sybil_attack.Chain.Platform.{Platform}
use blockchain_sybil_attack.Messages.{Address}
use blockchain_sybil_attack.Node.{P2pFile, State, send}
use blockchain_sybil_attack.Files.{
  hex_decode, split_metafile, or_nil, chunks_joined, store_file, get_data, store_data,
}
use blockchain_sybil_attack.Files.Transfer.{queue, set_pending}
use blockchain_sybil_attack.Files.Transfer.Stored.{with_chunk, store_data-known}
use blockchain_sybil_attack.Files.Transfer.Fetching.{
  chunk, finished, Fetch, hash_bytes, store_named, request_next, take_data,
}
use blockchain_sybil_attack.Files.Transfer.Hex.{hex_decode-hex, hash_bytes-hex}
use blockchain_sybil_attack.Files.Transfer.Exchange.{
  wanted, round, exchange, run, drained, round-take_data, sent, send_data_request-sent,
  sent-Waiting,
}

-- A hash of the metafile whose chunk the server has, and that is not the hash of the metafile.
pub record Serves (lib : Platform) (file : P2pFile) (h : Text) : Type 0 where
  pub bytes : Bytes
  pub is_hex : h ≡ hex bytes
  pub are_bytes : AreBytes bytes
  pub not_empty : (h == []) ≡ false
  pub content : Bytes
  pub there : get file.chunks h ≡ some content
  pub some_content : (content == []) ≡ false
  pub hashed : hex (lib.sha256 content) ≡ h
  pub apart : (hex file.meta_hash == h) ≡ false

module _ (lib : Platform) (server : State) (file : P2pFile) (filename : Text) (next_hop : Address)
    (shared : get server.files filename ≡ some file) (asker : Text) (back : Address)
    (returns : get server.next_hops asker ≡ some back) where
  -- The entry of the client after the chunks of `done` have come.
  pub record Holds (s : State) (f : Fetch) (done : List Text) : Type 0 where
    pub named : f.filename ≡ filename
    pub entry : P2pFile
    pub here : get s.files filename ≡ some entry
    pub same_metafile : entry.metafile ≡ file.metafile
    pub same_chunks : All (λ h. get entry.chunks h ≡ get file.chunks h) done
    pub empty : queue s f.channel ≡ []
    pub asker_is : s.me.identifier ≡ asker
    pub route : get s.next_hops server.me.identifier ≡ some next_hop

  chunks_joined-same :
      (entry : P2pFile) (done : List Text)
      → All (λ h. get entry.chunks h ≡ get file.chunks h) done
      → chunks_joined entry.chunks done ≡ chunks_joined file.chunks done
  unfolding chunks_joined
  chunks_joined-same entry [] all = refl
  chunks_joined-same entry (h ∷ done) (same, all) =
      rw same (ap (◌++◌ (or_nil (get file.chunks h))) (chunks_joined-same entry done all))

  store_named-entry :
      (s : State) (name : Text) (entry : P2pFile)
      → get s.files name ≡ some entry
      → store_named s name ≡ store_file entry
  unfolding store_named
  store_named-entry s name entry here = ground arith

  pub store_file-joined :
      (entry : P2pFile) (hashes : List Text)
      → split_metafile entry.metafile ≡ ok hashes
      → store_file entry ≡ ok (chunks_joined entry.chunks hashes)
  unfolding store_file
  store_file-joined entry hashes split = ground arith

  store_named-Holds :
      (s : State) (f : Fetch) (done : List Text)
      → Holds s f done
      → split_metafile file.metafile ≡ ok done
      → store_named s f.filename ≡ ok (chunks_joined file.chunks done)
  store_named-Holds s f done holds split =
      ap (store_named s) holds.named
      ∙ store_named-entry s filename holds.entry holds.here
      ∙ store_file-joined holds.entry done (ap split_metafile holds.same_metafile ∙ split)
      ∙ ap ok (chunks_joined-same holds.entry done holds.same_chunks)

  get_data-chunk : (h : Text) (v : Serves lib file h) → get_data server filename h ≡ v.content
  unfolding get_data
  get_data-chunk h v = ground (arith, v.apart, v.there)

  -- A chunk that is stored under its hash.
  same_chunks-put :
      (entry : P2pFile) (h : Text) (v : Serves lib file h) (done : List Text)
      → All (λ k. get entry.chunks k ≡ get file.chunks k) done
      → All (λ k. get (put entry.chunks h v.content) k ≡ get file.chunks k) (done ++ h ∷ [])
  same_chunks-put entry h v [] all = (rw (get-put, ==_refl) (sym v.there), tt)
  same_chunks-put entry h v (k ∷ done) (same, all) = (
    get-put entry.chunks h k v.content ∙ grind (arith, ==_iff h k, same, v.there),
    same_chunks-put entry h v done all,
  )

  after_chunk : State → Fetch → Bytes → Text → Bytes → State
  unfolding sent drained
  after_chunk s f bytes h content =
      store_data (drained lib server (sent lib server s f bytes next_hop) f content) f.filename h
        content

  after_chunk-Holds :
      (s : State) (f f' : Fetch) (done : List Text) (h : Text) (v : Serves lib file h)
      → Holds s f done
      → f'.filename ≡ f.filename
      → f'.channel ≡ f.channel
      → Holds (after_chunk s f' v.bytes h v.content) f' (done ++ h ∷ [])
  unfolding after_chunk with_chunk sent drained set_pending send
  after_chunk-Holds s f f' done h v holds same_name same_channel =
      let taken = drained lib server (sent lib server s f' v.bytes next_hop) f' v.content in
      let named = same_name ∙ holds.named in
      let here : get taken.files f'.filename ≡ some holds.entry =
        ap (get s.files) named ∙ holds.here in
      rw (store_data-known taken f'.filename h v.content holds.entry here) record {
        named = named;
        entry = with_chunk holds.entry h v.content;
        here =
            ap (get (put taken.files f'.filename (with_chunk holds.entry h v.content))) (sym named)
            ∙ get-put_self taken.files f'.filename (with_chunk holds.entry h v.content);
        same_metafile = holds.same_metafile;
        same_chunks = same_chunks-put holds.entry h v done holds.same_chunks;
        empty = rw (get-put, ==_refl) refl;
        asker_is = holds.asker_is;
        route = holds.route;
      }

  request_next-done :
      (s : State) (f : Fetch) (index : ℕ) (content : Bytes)
      → store_named s f.filename ≡ ok content
      → request_next (λ i. ok server.me.identifier) s f index []
        ≡ ok (s, record f { stage = finished content })
  unfolding request_next
  request_next-done s f index content written = rw written refl

  request_next-chunk :
      (s : State) (f : Fetch) (index : ℕ) (h : Text) (later : List Text) (bytes : Bytes)
      → hash_bytes h ≡ ok bytes
      → get s.next_hops server.me.identifier ≡ some next_hop
      → request_next (λ i. ok server.me.identifier) s f index (h ∷ later)
        ≡ ok (
          sent lib server s (record f { stage = chunk index h later }) bytes next_hop,
          record f { stage = chunk index h later },
        )
  unfolding request_next
  request_next-chunk s f index h later bytes decoded route = rw decoded (
      ap (λ t. ok (t, record f { stage = chunk index h later }))
        (send_data_request-sent lib server s (record f { stage = chunk index h later }) bytes
          next_hop route))

  -- The round in which a chunk comes.
  round-chunk :
      (s : State) (f : Fetch) (done : List Text) (index : ℕ) (h : Text) (later : List Text)
      (v : Serves lib file h)
      → Holds s f done
      → let f' : Fetch = record f { stage = chunk index h later } in
        round lib server (sent lib server s f' v.bytes next_hop) f'
        ≡ request_next
            (λ i. ok server.me.identifier)
            (after_chunk s f' v.bytes h v.content)
            f'
            (index + 1)
            later
  unfolding take_data after_chunk wanted
  round-chunk s f done index h later v holds =
      let f' : Fetch = record f { stage = chunk index h later } in
      let decoded : hex_decode h ≡ v.bytes =
        ap hex_decode v.is_hex ∙ hex_decode-hex v.bytes v.are_bytes in
      let asked : hex (hex_decode h) ≡ h = ap hex decoded ∙ sym v.is_hex in
      round-take_data lib server (sent lib server s f' v.bytes next_hop) f' v.content back
        (sent-Waiting lib server s f' v.bytes next_hop decoded holds.empty)
        (ap (get server.next_hops) holds.asker_is ∙ returns) v.some_content
        (ap (get_data server f.filename) asked
          ∙ ap (λ n. get_data server n h) holds.named
          ∙ get_data-chunk h v)
        (v.hashed ∙ sym asked) (ap (λ k. k == []) asked ∙ v.not_empty)

  -- What is done with the chunks that are left.
  pub fetch_rest :
      (later done : List Text) (index : ℕ) (s : State) (f : Fetch)
      → Holds s f done
      → All (Serves lib file) later
      → split_metafile file.metafile ≡ ok (done ++ later)
      → (r : State × Fetch) × (run lib server
            (length later)
            (request_next (λ i. ok server.me.identifier) s f index later)
          ≡ ok r)
        × (r.1.stage ≡ finished (chunks_joined file.chunks (done ++ later)))
  unfolding run exchange
  fetch_rest [] done index s f holds all split =
      let whole = append-nil done in
      let content = chunks_joined file.chunks done in
      (
        (s, record f { stage = finished content }),
        ap (run lib server 0) (
            request_next-done s f index content
              (store_named-Holds s f done holds (split ∙ ap ok whole))),
        ap (λ hs. finished (chunks_joined file.chunks hs)) (sym whole),
      )
  fetch_rest (h ∷ later) done index s f holds (v, all) split =
      let f' : Fetch = record f { stage = chunk index h later } in
      let decoded = ap hash_bytes v.is_hex ∙ hash_bytes-hex v.bytes v.are_bytes in
      let regroup : (done ++ h ∷ []) ++ later ≡ done ++ h ∷ later =
        append_assoc done (h ∷ []) later in
      let (r, ends, written) =
        fetch_rest later (done ++ h ∷ []) (index + 1) (after_chunk s f' v.bytes h v.content) f'
          (after_chunk-Holds s f f' done h v holds refl refl) all (split ∙ ap ok (sym regroup)) in
      (
        r,
        ap (run lib server (suc (length later)))
              (request_next-chunk s f index h later v.bytes decoded holds.route)
            ∙ ap (run lib server (length later)) (round-chunk s f done index h later v holds)
            ∙ ends,
        written ∙ ap (λ hs. finished (chunks_joined file.chunks hs)) regroup,
      )
