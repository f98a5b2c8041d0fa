-- ===== src/Files/Transfer/Exchange.antt =====
-- One round of a download of code/filehandler.go: a request, its reply, and what is done with it.
use blockchain_sybil_attack.Base.{
  ℕ, zero, suc, ◌≡◌, refl, ap, sym, ◌∙◌, false, some, none, Option, [], ◌∷◌, Text, Bytes, get, put,
  get-put, ◌==◌, ==_iff, ==_refl, nat_eq, text_eq, hex, Outcome, ok, ◌>>=◌, arith,
}
use blockchain_sybil_attack.Chain.Platform.{Platform}
use blockchain_sybil_attack.Messages.{Address, DataReply, DataRequest, GossipPacket, empty_packet}
use blockchain_sybil_attack.Node.{State, send}
use blockchain_sybil_attack.Files.{hash, hex_decode, get_data}
use blockchain_sybil_attack.Files.Transfer.{
  queue, set_pending, get_pending, stop_timer_and_send_data, send_data_request, handle_data_reply,
  reply_to_data_request, receives_data_request_from_peer, receives_data_reply_from_peer,
}
use blockchain_sybil_attack.Files.Transfer.Asked.{last_packet, last_packet-send, last_request}
use blockchain_sybil_attack.Files.Transfer.Fetching.{
  Stage, metafile, chunk, finished, Fetch, take_data, receive_from, resume,
}

-- What a fetch has asked for last.
unfoldable pub wanted : Fetch → Stage → Bytes
wanted f metafile = f.metahash
wanted f (chunk index h later) = hex_decode h
wanted f (finished written) = []

-- The reply of `server` to a request for `h` of the file.
abbrev pub reply_of : State → Text → Text → Bytes → DataReply
reply_of server asker filename h = record {
  origin = server.me.identifier;
  destination = asker;
  hop_limit = 10;
  file_name = filename;
  hash_value = h;
  content = get_data server filename (hex h);
}

-- A gossiper that has sent nothing yet.
abbrev pub silent : State → State
silent s = record s { srh = record s.srh { ps = record s.srh.ps { conn = [] } } }

-- The reply that a gossiper sends when it handles a request, if it sends one.
unfoldable pub answer_to : State → DataRequest → Option DataReply
unfolding receives_data_request_from_peer last_packet
answer_to server dr =
    elim (last_packet (receives_data_request_from_peer dr (silent server)).srh.ps.conn) [
      | none ↦ none
      | some p ↦ p.d_reply
    ]

module _ (lib : Platform) (server : State) where
  -- The request that was sent last comes to the server, which handles it; its reply, if it sends one,
  -- comes in and is handled, and the goroutine goes on.
  unfoldable pub round : State → Fetch → Outcome (State × Fetch)
  unfolding receives_data_reply_from_peer
  round s f = elim (last_request s) [
    | none ↦ ok (s, f)
    | some dr ↦ elim (answer_to server dr) [
      | none ↦ ok (s, f)
      | some reply ↦
          resume (λ index. ok server.me.identifier) (receives_data_reply_from_peer lib reply s) f
    ]
  ]

  unfoldable pub exchange : ℕ → State → Fetch → Outcome (State × Fetch)
  exchange zero s f = ok (s, f)
  exchange (suc n) s f = round s f >>= (λ r. exchange n r.0 r.1)

  unfoldable pub run : ℕ → Outcome (State × Fetch) → Outcome (State × Fetch)
  run n o = o >>= (λ r. exchange n r.0 r.1)

  -- The request of a fetch, for what it waits for.
  abbrev pub request_of : State → Fetch → DataRequest
  request_of s f = record {
    origin = s.me.identifier;
    destination = server.me.identifier;
    hop_limit = 10;
    file_name = f.filename;
    hash_value = wanted f f.stage;
  }

  -- The fetch has asked last for the data that it waits for.
  pub record Waiting (s : State) (f : Fetch) : Type 0 where
    pub pending :
        get s.downloads server.me.identifier
        ≡ some (record { hash = hex (wanted f f.stage); channel = f.channel })
    pub empty : queue s f.channel ≡ []
    pub asks : last_request s ≡ some (request_of s f)

  unfoldable pub drained : State → Fetch → Bytes → State
  drained s f content = record s {
    channels = put (put s.channels f.channel (content ∷ [])) f.channel [];
  }

  replied : State → Fetch → Bytes → State
  replied s f content = record s { channels = put s.channels f.channel (content ∷ []) }

  handle_data_reply-replied :
      (s : State) (f : Fetch) (dr : DataReply)
      → Waiting s f
      → dr.origin ≡ server.me.identifier
      → hex (lib.sha256 dr.content) ≡ hex (wanted f f.stage)
      → (hex (wanted f f.stage) == []) ≡ false
      → handle_data_reply lib s dr ≡ replied s f dr.content
  unfolding handle_data_reply get_pending stop_timer_and_send_data hash replied
  handle_data_reply-replied s f dr w from hashed some_hash =
      let pending : get s.downloads dr.origin
          ≡ some (record { hash = hex (wanted f f.stage); channel = f.channel }) =
        rw from w.pending in
      let empty = w.empty in
      ground (arith, ==_iff (hex (wanted f f.stage)) (hex (lib.sha256 dr.content)))

  get_data-silent : (name h : Text) → get_data (silent server) name h ≡ get_data server name h
  unfolding get_data
  get_data-silent name h = refl

  request-sends :
      (s : State) (f : Fetch) (back : Address)
      → get server.next_hops s.me.identifier ≡ some back
      → (get_data server f.filename (hex (wanted f f.stage)) == []) ≡ false
      → receives_data_request_from_peer (request_of s f) (silent server)
        ≡ send
            (silent server)
            (record empty_packet {
              d_reply = some (reply_of server s.me.identifier f.filename (wanted f f.stage));
            })
            back
  unfolding receives_data_request_from_peer reply_to_data_request
  request-sends s f back returns some_data =
      let same = get_data-silent f.filename (hex (wanted f f.stage)) in
      rw (==_refl server.me.identifier, same, some_data, returns) refl

  -- The server that shares the data and knows the way back answers the request.
  answer_to-request :
      (s : State) (f : Fetch) (back : Address)
      → get server.next_hops s.me.identifier ≡ some back
      → (get_data server f.filename (hex (wanted f f.stage)) == []) ≡ false
      → answer_to server (request_of s f)
        ≡ some (reply_of server s.me.identifier f.filename (wanted f f.stage))
  unfolding answer_to
  answer_to-request s f back returns some_data =
      let answer = reply_of server s.me.identifier f.filename (wanted f f.stage) in
      ap (λ (t : State). elim (last_packet t.srh.ps.conn) [ none ↦ none | some p ↦ p.d_reply ])
        (request-sends s f back returns some_data)
      ∙ ap (λ (o : Option GossipPacket). elim o [ none ↦ none | some p ↦ p.d_reply ])
          (last_packet-send (silent server) (record empty_packet { d_reply = some answer }) back)

  receives_data_reply-own :
      (s : State) (f : Fetch)
      → receives_data_reply_from_peer lib
          (reply_of server s.me.identifier f.filename (wanted f f.stage))
          s
        ≡ handle_data_reply lib s (reply_of server s.me.identifier f.filename (wanted f f.stage))
  unfolding receives_data_reply_from_peer
  receives_data_reply-own s f = rw (==_refl s.me.identifier) refl

  -- A reply with that hash is received at once.
  pub round-take_data :
      (s : State) (f : Fetch) (content : Bytes) (back : Address)
      → Waiting s f
      → get server.next_hops s.me.identifier ≡ some back
      → (content == []) ≡ false
      → get_data server f.filename (hex (wanted f f.stage)) ≡ content
      → hex (lib.sha256 content) ≡ hex (wanted f f.stage)
      → (hex (wanted f f.stage) == []) ≡ false
      → round s f
        ≡ take_data (λ index. ok server.me.identifier) (drained s f content) f f.stage content
  unfolding round resume drained replied receive_from
  round-take_data s f content back w returns some_data found hashed some_hash =
      let peers : ℕ → Outcome Text = λ index. ok server.me.identifier in
      let answer = reply_of server s.me.identifier f.filename (wanted f f.stage) in
      let got : handle_data_reply lib s answer ≡ replied s f content =
        handle_data_reply-replied s f answer w refl (rw found hashed) some_hash
        ∙ ap (replied s f) found in
      let waits : queue (replied s f content) f.channel ≡ content ∷ [] = rw (get-put, ==_refl) in
      let answered : answer_to server (request_of s f) ≡ some answer =
        answer_to-request s f back returns (rw found some_data) in
      let replies : DataRequest → Outcome (State × Fetch) = λ dr. elim (answer_to server dr) [
        | none ↦ ok (s, f)
        | some reply ↦ resume peers (receives_data_reply_from_peer lib reply s) f
      ] in
      ap (λ (o : Option DataRequest). elim o [ none ↦ ok (s, f) | some dr ↦ replies dr ]) w.asks
      ∙ ap
          (λ (o : Option DataReply). elim o [
            | none ↦ ok (s, f)
            | some reply ↦ resume peers (receives_data_reply_from_peer lib reply s) f
          ])
          answered
      ∙ ap (λ t. resume peers t f) (receives_data_reply-own s f ∙ got)
      ∙ ap (receive_from peers (replied s f content) f) waits

  unfoldable pub sent : State → Fetch → Bytes → Address → State
  unfolding set_pending send
  sent s f h next_hop =
      set_pending
        (send s
          (record empty_packet {
            d_request = some (record {
              origin = s.me.identifier;
              destination = server.me.identifier;
              hop_limit = 10;
              file_name = f.filename;
              hash_value = h;
            });
          })
          next_hop)
        server.me.identifier (hex h) f.channel

  pub send_data_request-sent :
      (s : State) (f : Fetch) (h : Bytes) (next_hop : Address)
      → get s.next_hops server.me.identifier ≡ some next_hop
      → send_data_request s server.me.identifier f.filename h f.channel ≡ sent s f h next_hop
  unfolding send_data_request sent
  send_data_request-sent s f h next_hop route = ground arith

  sent-asks :
      (s : State) (f : Fetch) (h : Bytes) (next_hop : Address)
      → wanted f f.stage ≡ h
      → last_request (sent s f h next_hop) ≡ some (request_of (sent s f h next_hop) f)
  unfolding sent set_pending last_request send
  sent-asks s f h next_hop asks =
      let asked : DataRequest = record {
        origin = s.me.identifier;
        destination = server.me.identifier;
        hop_limit = 10;
        file_name = f.filename;
        hash_value = h;
      } in
      ap (λ (o : Option GossipPacket). elim o [ none ↦ none | some p ↦ p.d_request ])
        (last_packet-send s (record empty_packet { d_request = some asked }) next_hop)
      ∙ ap (λ k. some (record asked { hash_value = k })) (sym asks)

  pub sent-Waiting :
      (s : State) (f : Fetch) (h : Bytes) (next_hop : Address)
      → wanted f f.stage ≡ h
      → queue s f.channel ≡ []
      → Waiting (sent s f h next_hop) f
  unfolding sent set_pending send
  sent-Waiting s f h next_hop asks empty = record {
    asks = sent-asks s f h next_hop asks;
    pending = rw (get-put, ==_refl, asks) refl;
    empty = empty;
  }
