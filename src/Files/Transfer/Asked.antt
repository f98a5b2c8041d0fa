-- ===== src/Files/Transfer/Asked.antt =====
-- The last packet of a gossiper, and the request of code/filehandler.go in it.
use blockchain_sybil_attack.Base.{
  ℕ, ◌≡◌, refl, ap, ◌∙◌, some, none, Option, List, [], ◌∷◌, ◌++◌, Text, Bytes, get, nat_eq, text_eq,
  hex, arith,
}
use blockchain_sybil_attack.Messages.{Address, DataRequest, Datagram, GossipPacket, empty_packet}
use blockchain_sybil_attack.Node.{State, send}
use blockchain_sybil_attack.Puzzles
use blockchain_sybil_attack.Files.Transfer.{set_pending, send_data_request}

-- The packet that was sent last.
unfoldable pub last_packet : List Datagram → Option GossipPacket
last_packet [] = none
last_packet (d ∷ []) = some d.packet
last_packet (d ∷ e ∷ conn) = last_packet (e ∷ conn)

last_packet-append :
    (conn : List Datagram) (d : Datagram) → last_packet (conn ++ d ∷ []) ≡ some d.packet
unfolding last_packet
last_packet-append [] d = refl
last_packet-append (c ∷ []) d = refl
last_packet-append (c ∷ e ∷ conn) d = last_packet-append (e ∷ conn) d

pub last_packet-send :
    (s : State) (msg : GossipPacket) (dest : Address)
    → last_packet (send s msg dest).srh.ps.conn ≡ some (record msg { node_id = s.srh.ps.my_id })
unfolding send Puzzles.send
last_packet-send s msg dest =
    last_packet-append s.srh.ps.conn
      (record { packet = record msg { node_id = s.srh.ps.my_id }; dest = dest })

-- The request in the packet that a gossiper has sent last.
unfoldable pub last_request : State → Option DataRequest
unfolding last_packet
last_request s = elim (last_packet s.srh.ps.conn) [ none ↦ none | some p ↦ p.d_request ]

-- A request for data is the last that was sent, if there is a way to the peer.
pub last_request-send_data_request :
    (s : State) (dest name : Text) (h : Bytes) (channel : ℕ) (next_hop : Address)
    → get s.next_hops dest ≡ some next_hop
    → last_request (send_data_request s dest name h channel)
      ≡ some (record {
        origin = s.me.identifier;
        destination = dest;
        hop_limit = 10;
        file_name = name;
        hash_value = h;
      })
unfolding last_request send_data_request set_pending
last_request-send_data_request s dest name h channel next_hop route =
    let asked : DataRequest = record {
      origin = s.me.identifier;
      destination = dest;
      hop_limit = 10;
      file_name = name;
      hash_value = h;
    } in
    let sends : send_data_request s dest name h channel
        ≡ set_pending (send s (record empty_packet { d_request = some asked }) next_hop) dest
            (hex h) channel =
      ground arith in
    ap last_request sends
    ∙ ap (λ (o : Option GossipPacket). elim o [ none ↦ none | some p ↦ p.d_request ])
        (last_packet-send s (record empty_packet { d_request = some asked }) next_hop)
