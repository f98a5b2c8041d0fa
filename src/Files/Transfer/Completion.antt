-- ===== src/Files/Transfer/Completion.antt =====
-- A whole download of code/filehandler.go: the requests of one gossiper, answered by the replies of
-- another, up to the file that is written.
use blockchain_sybil_attack.Base.{
  ℕ, suc, ◌≡◌, refl, ap, sym, ◌∙◌, none, some, List, [], Text, Bytes, All, get, put, get-put,
  get-put_self, ◌==◌, false, ==_refl, nat_eq, text_eq, hex, length, ok, ◌>>=◌, arith,
}
use blockchain_sybil_attack.Chain.Platform.{Platform}
use blockchain_sybil_attack.Messages.{Address}
use blockchain_sybil_attack.Node.{P2pFile, State, send}
use blockchain_sybil_attack.Files.{
  hex_decode, split_metafile, chunks_joined, store_file, get_data, store_data,
}
use blockchain_sybil_attack.Files.Transfer.{queue, set_pending}
use blockchain_sybil_attack.Files.Transfer.Fetching.{
  metafile, finished, Fetch, request_next, take_data, download,
}
use blockchain_sybil_attack.Files.Transfer.Hex.{hex_not_empty}
use blockchain_sybil_attack.Files.Transfer.Exchange.{
  wanted, round, exchange, run, drained, round-take_data, sent, send_data_request-sent,
  sent-Waiting,
}
use blockchain_sybil_attack.Files.Transfer.Stored.{data_deep_copy-same}
use blockchain_sybil_attack.Files.Transfer.Rounds.{Serves, Holds, store_file-joined, fetch_rest}

module _ (lib : Platform) (server : State) (file : P2pFile) (filename : Text) (next_hop : Address)
    (shared : get server.files filename ≡ some file) (asker : Text) (back : Address)
    (returns : get server.next_hops asker ≡ some back)
    (some_metafile : (file.metafile == []) ≡ false) where
  first_entry : Bytes → P2pFile
  first_entry metahash = record {
    file_name = filename;
    size = 0;
    metafile = file.metafile;
    meta_hash = metahash;
    chunks = [];
  }

  store_data-new :
      (s : State) (f : Fetch)
      → get s.files f.filename ≡ none
      → f.filename ≡ filename
      → store_data s f.filename (hex f.metahash) file.metafile
        ≡ record s { files = put s.files f.filename (first_entry (hex_decode (hex f.metahash))) }
  unfolding store_data first_entry
  store_data-new s f missing named = ground (arith, data_deep_copy-same file.metafile)

  -- The round in which the metafile comes.
  metafile-Holds :
      (s : State) (f : Fetch)
      → get s.files f.filename ≡ none
      → f.filename ≡ filename
      → queue s f.channel ≡ []
      → get s.next_hops server.me.identifier ≡ some next_hop
      → s.me.identifier ≡ asker
      → Holds lib server file filename next_hop shared asker back returns
          (store_data s f.filename (hex f.metahash) file.metafile)
          f
          []
  unfolding first_entry
  metafile-Holds s f missing named empty route same = rw (store_data-new s f missing named) record {
    named = named;
    entry = first_entry (hex_decode (hex f.metahash));
    here =
        ap (get (put s.files f.filename (first_entry (hex_decode (hex f.metahash))))) (sym named)
        ∙ get-put_self s.files f.filename (first_entry (hex_decode (hex f.metahash)));
    same_metafile = refl;
    same_chunks = tt;
    empty = empty;
    asker_is = same;
    route = route;
  }

  first_fetch : ℕ → Fetch
  first_fetch channel = record {
    filename = filename;
    metahash = file.meta_hash;
    channel = channel;
    stage = metafile;
  }

  metafile-Holds-drained :
      (client : State) (f : Fetch)
      → get client.files f.filename ≡ none
      → f.filename ≡ filename
      → get client.next_hops server.me.identifier ≡ some next_hop
      → client.me.identifier ≡ asker
      → Holds lib server file filename next_hop shared asker back returns
          (store_data
            (drained lib server (sent lib server client f f.metahash next_hop) f file.metafile)
            f.filename
            (hex f.metahash)
            file.metafile)
          f
          []
  unfolding drained sent set_pending send
  metafile-Holds-drained client f missing named route same =
      metafile-Holds
        (drained lib server (sent lib server client f f.metahash next_hop) f file.metafile) f
        missing named (rw (get-put, ==_refl) refl) route same

  get_data-metafile : get_data server filename (hex file.meta_hash) ≡ file.metafile
  unfolding get_data
  get_data-metafile = ground (arith, shared, ==_refl (hex file.meta_hash))

  -- The round in which the metafile comes.
  round-metafile :
      (client : State) (channel : ℕ) (hashes : List Text)
      → file.meta_hash ≡ lib.sha256 file.metafile
      → split_metafile file.metafile ≡ ok hashes
      → queue client channel ≡ []
      → client.me.identifier ≡ asker
      → let f : Fetch = first_fetch channel in
        let s : State = sent lib server client f file.meta_hash next_hop in
        round lib server s f
        ≡ request_next
            (λ i. ok server.me.identifier)
            (store_data
              (drained lib server s f file.metafile)
              filename
              (hex file.meta_hash)
              file.metafile)
            f
            0
            hashes
  unfolding take_data wanted first_fetch sent
  round-metafile client channel hashes meta split empty same =
      let f : Fetch = first_fetch channel in
      let s : State = sent lib server client f file.meta_hash next_hop in
      round-take_data lib server s f file.metafile back
        (sent-Waiting lib server client f file.meta_hash next_hop refl empty)
        (ap (get server.next_hops) same ∙ returns) some_metafile get_data-metafile
        (ap hex (sym meta))
        (hex_not_empty file.meta_hash
          (omega (arith, ap length meta, lib.sha256_length file.metafile)))
      ∙ ap
          (λ o. o >>= (λ hs.
            request_next (λ i. ok server.me.identifier)
              (store_data (drained lib server s f file.metafile) filename (hex file.meta_hash)
                file.metafile)
              f 0 hs))
          split

  -- A gossiper that knows the way to the server and has not got the file downloads it: after one
  -- round for the metafile and one for each chunk it writes what the server would write itself.
  pub download_completes :
      (client : State) (channel : ℕ) (hashes : List Text)
      → file.meta_hash ≡ lib.sha256 file.metafile
      → split_metafile file.metafile ≡ ok hashes
      → All (Serves lib file) hashes
      → get client.files filename ≡ none
      → get client.next_hops server.me.identifier ≡ some next_hop
      → client.me.identifier ≡ asker
      → queue client channel ≡ []
      → (r : State × Fetch) × (written : Bytes) × (run lib server
            (suc (length hashes))
            (ok (download client filename file.meta_hash server.me.identifier channel))
          ≡ ok r)
        × (r.1.stage ≡ finished written)
        × (store_file file ≡ ok written)
  unfolding download run exchange first_fetch
  download_completes client channel hashes meta split all missing route same empty =
      let f : Fetch = first_fetch channel in
      let got =
        drained lib server (sent lib server client f file.meta_hash next_hop) f file.metafile in
      let (r, ends, written) =
        fetch_rest lib server file filename next_hop shared asker back returns hashes [] 0
          (store_data got filename (hex file.meta_hash) file.metafile) f
          (metafile-Holds-drained client f missing refl route same) all split in
      (
        r,
        chunks_joined file.chunks hashes,
        ap (λ t. run lib server (suc (length hashes)) (ok (t, f)))
              (send_data_request-sent lib server client f file.meta_hash next_hop route)
            ∙ ap (run lib server (length hashes))
                (round-metafile client channel hashes meta split empty same)
            ∙ ends,
        written,
        store_file-joined lib server file filename next_hop shared asker back returns file hashes
            split,
      )
