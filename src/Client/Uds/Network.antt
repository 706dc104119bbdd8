-- ===== src/Client/Uds/Network.antt =====
-- src/client.rs and src/server.rs with a network between them that carries what the one sends to
-- the other: a whole connection, from the client's handshake to its last call.
mod Tests
use xprotocol.Prelude.{
  ℕ, ◌≡◌, ◌<◌, String, Bool, true, Option, none, some, List, [], ◌∷◌, ◌++◌, length, drop,
}
use xprotocol.Error.{Result}
use xprotocol.Protocol.{ServiceRequest, ServiceResponse}
use xprotocol.Streaming.{StreamMode, StreamMessage}
use xprotocol.Wire.{
  AsyncWrite, AsyncRead, read_message, msg_handshake, msg_request, msg_stream_request,
}
use xprotocol.Server.{ServerConfig}
use xprotocol.Server.Connection.{Json, Handler, Connection, handshake}
use xprotocol.Client.Uds.{
  Link, Socket, ClientJson, UdsClient, Dialled, reached, hello, put_json, connect, call, in_mode,
  call_streaming,
}
use xprotocol.Client.Uds.Remote.{server_turn}

-- What the operating system does for the bytes between two sockets: they arrive, after those that
-- are waiting; and what is there is there before any timeout, since tokio's `timeout` asks the read
-- before it asks the clock.
pub record Network (l : Link) (tr : AsyncRead) : Type 1 where
  pub arrive_up : List ℕ → tr.R → tr.R
  pub arrive_down : List ℕ → l.input.R → l.input.R
  pub pending-arrive_up :
      (bytes : List ℕ) (r : tr.R) → tr.pending (arrive_up bytes r) ≡ tr.pending r ++ bytes
  pub pending-arrive_down :
      (bytes : List ℕ) (r : l.input.R)
      → l.input.pending (arrive_down bytes r) ≡ l.input.pending r ++ bytes
  pub prompt :
      (limit : ℕ) (r : l.input.R) → 0 < length (l.input.pending r) → l.in_time limit r ≡ true

-- what a sender has added to what it had sent
unfoldable pub news : List ℕ → List ℕ → List ℕ
news before after = drop (length before) after

-- a request, with the time at which the server takes it and the latency that it then has
pub record Asked (Value : Type 0) : Type 0 where
  pub now : ℕ
  pub latency : ℕ
  pub request : ServiceRequest Value

module _ (l : Link) (j : ClientJson) (t : AsyncWrite) (tr : AsyncRead) (sj : Json)
    (h : Handler sj.Value) (config : ServerConfig) (n : Network l tr) where
  -- the server's end
  pub record Peer : Type 0 where
    pub reader : tr.R
    pub conn : Connection t.W

  pub record Pair : Type 0 where
    pub client : UdsClient l
    pub peer : Peer

  unfoldable pub kept : {A : Type 0} → Result A × Connection t.W → tr.R → Result A × Peer
  kept (a, c) r = (a, record { reader = r; conn = c })

  -- one turn of the server's loop, and the reader after it
  unfoldable pub peer_turn : String → ℕ → ℕ → Peer → Result Bool × Peer
  unfolding kept
  peer_turn client_id now latency p =
      kept (server_turn t tr sj h config client_id now latency p.reader p.conn)
        (read_message tr p.reader).1

  unfoldable pub peer_handshake : ℕ → Peer → Result String × Peer
  unfolding kept
  peer_handshake now p =
      let (m, r) = read_message tr p.reader in kept (handshake t sj h config now m p.conn) r

  unfoldable pub hear_up : List ℕ → List ℕ → Peer → Peer
  unfolding news
  hear_up before after p = record p { reader = n.arrive_up (news before after) p.reader }

  unfoldable pub hear_down : Connection t.W → Connection t.W → Socket l → Socket l
  unfolding news
  hear_down before after s = record s {
    reader = n.arrive_down (news (t.sent before.writer) (t.sent after.writer)) s.reader;
  }

  -- A call: what the client writes reaches the server, whose turn it is; what the server writes
  -- reaches the client, which finds it when it has written.
  unfoldable pub talk :
      String → Asked j.Value → Option (Socket l) → Pair → Result (ServiceResponse j.Value) × Pair
  talk client_id a none w =
      let (r, c) = call l j Dialled.too_slow a.request w.client in (r, record w { client = c })
  talk client_id a (some s) w =
      let (_, s') = put_json msg_request (j.request_body a.request) s in
      let (_, p) =
        peer_turn client_id a.now a.latency
          (hear_up (l.output.sent s.writer) (l.output.sent s'.writer) w.peer) in
      let (r, c) =
        call l j Dialled.too_slow a.request
          (record w.client { stream = some (hear_down w.peer.conn p.conn s) }) in
      (r, record { client = c; peer = p })

  unfoldable pub talk_all :
      String → List (Asked j.Value) → Pair → List (Result (ServiceResponse j.Value)) × Pair
  unfolding talk
  talk_all client_id [] w = ([], w)
  talk_all client_id (a ∷ as_) w =
      let (r, w1) = talk client_id a w.client.stream w in
      let (rs, w2) = talk_all client_id as_ w1 in (r ∷ rs, w2)

  -- The handshake, over the socket that dialling reached.
  unfoldable pub meet : ℕ → Socket l → Pair → Result (Unit {0}) × (Result String × Pair)
  meet now s w =
      let (_, s') = put_json msg_handshake (j.hello_body (hello "protocol-client")) s in
      let (id, p) =
        peer_handshake now (hear_up (l.output.sent s.writer) (l.output.sent s'.writer) w.peer) in
      let (r, c) = connect l j (reached (hear_down w.peer.conn p.conn s)) w.client in
      (r, (id, record { client = c; peer = p }))

  -- A streaming call; `fuel` bounds the messages that the client takes.
  unfoldable pub talk_stream :
      String
      → ℕ
      → StreamMode
      → Asked j.Value
      → Socket l
      → Pair
      → Result (Option (List (StreamMessage j.Value))) × Pair
  talk_stream client_id fuel mode a s w =
      let (_, s') = put_json msg_stream_request (j.request_body (in_mode l j mode a.request)) s in
      let (_, p) =
        peer_turn client_id a.now a.latency
          (hear_up (l.output.sent s.writer) (l.output.sent s'.writer) w.peer) in
      let (r, c) =
        call_streaming l j fuel Dialled.too_slow mode a.request
          (record w.client { stream = some (hear_down w.peer.conn p.conn s) }) in
      (r, record { client = c; peer = p })
