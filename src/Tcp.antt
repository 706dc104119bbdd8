-- ===== src/Tcp.antt =====
-- src/tcp.rs: a connection of `TcpServer`, and `TcpClient`. A message is read from and written to
-- the socket itself: the buffers that the code puts in between hold nothing from one message to the
-- next, since a peer sends one at a time.
pub mod Serving
pub mod Calling
pub mod Accepting
pub mod Halves
mod Tests
use xprotocol.Prelude.{
  ℕ, zero, suc, String, Bool, true, false, not, Option, none, some, List, [], ◌∷◌, ◌==◌,
  if◌then◌else◌,
}
use xprotocol.Error.{
  ProtocolError, connection_failed, connection_closed, protocol, Result, ok, err, IoResult, io_ok,
  io_err, from_io, from_json,
}
use xprotocol.Action.{Action, continue, pure, fail, lift, ◌>>=◌, ◌>>◌}
use xprotocol.Protocol.{HandshakeRequest, HandshakeResponse, ServiceRequest, ServiceResponse}
use xprotocol.Wire.{
  msg_handshake, msg_handshake_ack, msg_request, msg_response, msg_ping, msg_pong, msg_close,
}
use xprotocol.Server.Connection.{Json, Handler}
use xprotocol.Client.Uds.{Link, Socket, ClientJson, put, put_json, get_message}

module _ (l : Link) (j : Json) (h : Handler j.Value) where
  -- up to the loop
  unfoldable pub handshake : Action (Socket l) (Unit {0})
  unfolding get_message put_json
  handshake = do
    m ← get_message
    request ← lift (hello_of m)
    put_json msg_handshake_ack (j.handshake_body (h.on_handshake request))
    where
      hello_of : ℕ × List ℕ → Result HandshakeRequest
      hello_of (msg_type, payload) =
          if not (msg_type == msg_handshake)
          then err (protocol "expected handshake")
          else from_json (j.read_handshake payload)

  unfoldable pub on_request : ℕ → List ℕ → Action (Socket l) Bool
  unfolding put_json
  on_request now payload = do
    request ← lift (from_json (j.read_request payload))
    put_json msg_response (j.response_body (h.handle now request))
    pure true

  unfoldable pub on_message : ℕ → ℕ × List ℕ → Action (Socket l) Bool
  unfolding on_request put
  on_message now (msg_type, payload) =
      if msg_type == msg_request
      then on_request now payload
      else if msg_type == msg_ping
      then (put msg_pong [] >> pure true)
      else if msg_type == msg_close
      then pure false
      else pure true

  unfoldable pub on_error : ProtocolError → Bool
  on_error connection_closed = false
  on_error e = true

  unfoldable pub match_message : ℕ → Result (ℕ × List ℕ) × Socket l → Result Bool × Socket l
  unfolding on_message on_error
  match_message now (ok m, s) = on_message now m s
  match_message now (err e, s) = (ok (on_error e), s)

  -- one turn of the loop: whether it goes on
  unfoldable pub turn : ℕ → Action (Socket l) Bool
  unfolding get_message match_message
  turn now s = match_message now (get_message s)

  unfoldable pub next_turn :
      (Socket l → Result Bool × Socket l) → Result Bool × Socket l → Result Bool × Socket l
  next_turn more (ok true, s) = more s
  next_turn more (ok false, s) = (ok false, s)
  next_turn more (err e, s) = (err e, s)

  -- the loop over at most so many turns: whether it would go on
  unfoldable pub turns : ℕ → (ℕ → ℕ) → Action (Socket l) Bool
  unfolding turn next_turn
  turns zero clock s = (ok true, s)
  turns (suc n) clock s = next_turn (turns n (λ i. clock (suc i))) (turn (clock 0) s)

  unfoldable pub handle_connection : ℕ → (ℕ → ℕ) → Action (Socket l) Bool
  unfolding handshake turns
  handle_connection n clock = handshake >> turns n clock

pub record TcpClient (l : Link) : Type 0 where
  pub connected : Bool
  pub session_id : Option String
  pub stream : Option (Socket l)

unfoldable pub new : {l : Link} → TcpClient l
new = record { connected = false; session_id = none; stream = none }

abbrev pub hello : String → HandshakeRequest
hello service = record {
  client_id = "protocol-tcp-client";
  service_name = service;
  capabilities = "json" ∷ [];
}

module _ (l : Link) (j : ClientJson) where
  open j use {Value}

  abbrev accepted : HandshakeResponse → Result String
  accepted r = if not r.success then err (protocol "handshake rejected") else ok r.session_id

  unfoldable pub check_ack : ℕ × List ℕ → Result HandshakeResponse
  check_ack (msg_type, payload) =
      if not (msg_type == msg_handshake_ack)
      then err (protocol "invalid handshake response")
      else from_json (j.read_handshake_response payload)

  -- the handshake on the first socket: the session's id
  unfoldable pub greet : Action (Socket l) String
  unfolding put_json get_message check_ack
  greet = do
    put_json msg_handshake (j.hello_body (hello "client"))
    m ← get_message
    r ← lift (check_ack m)
    lift (accepted r)

  -- the socket of the handshake is dropped, and a second one is kept
  unfoldable pub keep_second :
      IoResult (Socket l) → Result String → TcpClient l → Result (Unit {0}) × TcpClient l
  keep_second second (err e) c = (err e, c)
  keep_second (io_ok s) (ok session) c =
      (ok tt, record c { session_id = some session; connected = true; stream = some s })
  keep_second (io_err e) (ok session) c =
      (err (connection_failed e), record c { session_id = some session; connected = true })

  -- what the two calls of `TcpStream::connect` give
  unfoldable pub connect :
      IoResult (Socket l) → IoResult (Socket l) → TcpClient l → Result (Unit {0}) × TcpClient l
  unfolding greet keep_second
  connect (io_ok s) second c = keep_second second (greet s).0 c
  connect (io_err e) second c = (err (connection_failed e), c)

  -- up to the reply, on the stream; the first reply is read and not looked at
  unfoldable pub exchange : String → ServiceRequest Value → Action (Socket l) (ℕ × List ℕ)
  unfolding put_json get_message
  exchange service request = do
    put_json msg_handshake (j.hello_body (hello service))
    ignored ← get_message
    put_json msg_request (j.request_body request)
    get_message

  unfoldable pub settle :
      Result (ℕ × List ℕ) × Socket l → TcpClient l → Result (ServiceResponse Value) × TcpClient l
  settle (err e, s) c = (err e, record c { stream = some s })
  settle (ok (msg_type, payload), s) c =
      if not (msg_type == msg_response)
      then (err (protocol "invalid response type"), record c { connected = false; stream = some s })
      else (from_json (j.read_response payload), record c { stream = some s })

  unfoldable pub on_stream :
      String
      → ServiceRequest Value
      → Option (Socket l)
      → TcpClient l
      → Result (ServiceResponse Value) × TcpClient l
  unfolding exchange settle
  on_stream service request none c = (err connection_closed, c)
  on_stream service request (some s) c = settle (exchange service request s) c

  unfoldable pub connected_call :
      String
      → ServiceRequest Value
      → Result (Unit {0}) × TcpClient l
      → Result (ServiceResponse Value) × TcpClient l
  unfolding on_stream
  connected_call service request (ok _, c) = on_stream service request c.stream c
  connected_call service request (err e, c) = (err e, c)

  -- `request` is `ServiceRequest::new(service, method, payload)`
  unfoldable pub call :
      IoResult (Socket l)
      → IoResult (Socket l)
      → String
      → ServiceRequest Value
      → TcpClient l
      → Result (ServiceResponse Value) × TcpClient l
  unfolding connected_call connect
  call first second service request c =
      connected_call service request
        (if not c.connected then connect first second c else (ok tt, c))

  unfoldable pub close : TcpClient l → Result (Unit {0}) × TcpClient l
  close c = (ok tt, record c { connected = false; session_id = none; stream = none })
