-- ===== src/Client/Uds.antt =====
-- src/client.rs: `UdsClient`. Its methods take `&mut self`, and `SharedUdsClient` puts a mutex around
-- it, so a method runs from start to end with no other between. A message is read from and written
-- to the socket itself: the buffers that the code puts in between hold nothing from one message to
-- the next, since a peer sends one at a time.
mod Tests
pub mod Memory
pub mod Sockets
pub mod Sound
pub mod Streaming
pub mod Chunks
pub mod Remote
pub mod Network
pub mod Conversation
pub mod Meeting
pub mod Streamed
use text.Mathlib.Text.{starts_with}
use xprotocol.Prelude.{
  ℕ, zero, suc, String, Bool, true, false, not, Option, none, some, List, [], ◌∷◌, ◌++◌, ◌==◌,
  decimal, str_append, if◌then◌else◌,
}
use xprotocol.Error.{
  ProtocolError, connection_failed, connection_closed, timeout, protocol, Result, ok, err, IoResult,
  io_ok, io_err, from_json, ◌>>=◌ as and_then,
}
use xprotocol.Action.{Action, continue, pure, fail, lift, ◌>>=◌, ◌>>◌}
use xprotocol.Protocol.{HandshakeRequest, HandshakeResponse, ServiceRequest, ServiceResponse}
use xprotocol.Schema.{ServiceSchema}
use xprotocol.Streaming.{StreamMode, as_str, StreamMessage, StreamResponse}
use xprotocol.Wire.{
  AsyncWrite, AsyncRead, read_message, write_message, msg_handshake, msg_handshake_ack, msg_request,
  msg_response, msg_stream_request, msg_stream_start, msg_stream_chunk, msg_stream_end, msg_error,
  msg_schema_request, msg_schema_response,
}

-- Both directions of a socket. `in_time` says whether a message is there before a timeout of so
-- many milliseconds expires.
pub record Link : Type 1 where
  pub output : AsyncWrite
  pub input : AsyncRead
  pub in_time : ℕ → input.R → Bool

pub record Socket (l : Link) : Type 0 where
  pub reader : l.input.R
  pub writer : l.output.W

-- serde_json, as far as the clients use it
pub record ClientJson : Type 1 where
  pub Value : Type 0
  pub hello_body : HandshakeRequest → IoResult (List ℕ)
  pub read_handshake_response : List ℕ → IoResult HandshakeResponse
  pub request_body : ServiceRequest Value → IoResult (List ℕ)
  pub read_response : List ℕ → IoResult (ServiceResponse Value)
  -- `payload["stream_mode"] = mode`, on an object or null
  pub with_stream_mode : String → Value → Value
  pub read_stream_message : List ℕ → IoResult (StreamMessage Value)
  pub read_stream_response : List ℕ → IoResult (StreamResponse Value)
  -- a JSON value, printed again
  pub read_text : List ℕ → IoResult String
  pub read_schema : List ℕ → IoResult (ServiceSchema Value)

pub record UdsClient (l : Link) : Type 0 where
  pub connected : Bool
  pub session_id : Option String
  pub stream : Option (Socket l)
  pub connect_timeout : ℕ
  pub request_timeout : ℕ

-- durations in milliseconds
unfoldable pub new : {l : Link} → UdsClient l
new = record {
  connected = false;
  session_id = none;
  stream = none;
  connect_timeout = 5000;
  request_timeout = 30000;
}

abbrev pub with_connect_timeout : {l : Link} → ℕ → UdsClient l → UdsClient l
with_connect_timeout limit c = record c { connect_timeout = limit }

abbrev pub with_request_timeout : {l : Link} → ℕ → UdsClient l → UdsClient l
with_request_timeout limit c = record c { request_timeout = limit }

abbrev pub is_connected : {l : Link} → UdsClient l → Bool
is_connected c = c.connected

-- `timeout(.., UnixStream::connect(..)).await`
pub data Dialled (l : Link) : Type 0 where
  reached : Socket l → Dialled l
  refused : String → Dialled l
  too_slow : Dialled l

abbrev pub hello : String → HandshakeRequest
hello client_id = record {
  client_id = client_id;
  service_name = "client";
  capabilities = "json" ∷ [];
}

unfoldable pub set_writer :
    {A : Type 0} {l : Link} → Result A × l.output.W → Socket l → Result A × Socket l
set_writer (r, w) s = (r, record s { writer = w })

unfoldable pub set_reader :
    {A : Type 0} {l : Link} → Result A × l.input.R → Socket l → Result A × Socket l
set_reader (r, x) s = (r, record s { reader = x })

module _ {l : Link} where
  unfoldable pub put : ℕ → List ℕ → Action (Socket l) (Unit {0})
  unfolding set_writer
  put msg_type payload s = set_writer (write_message l.output msg_type payload s.writer) s

  -- a read without a timeout
  unfoldable pub get_message : Action (Socket l) (ℕ × List ℕ)
  unfolding set_reader
  get_message s = set_reader (read_message l.input s.reader) s

  -- `timeout(self.request_timeout, read_message(..)).await`
  unfoldable pub await_message : ℕ → Action (Socket l) (ℕ × List ℕ)
  unfolding get_message
  await_message limit s = if l.in_time limit s.reader then get_message s else (err timeout, s)

  unfoldable pub put_encoded : ℕ → Result (List ℕ) → Action (Socket l) (Unit {0})
  unfolding put
  put_encoded msg_type (ok body) s = put msg_type body s
  put_encoded msg_type (err e) s = (err e, s)

  -- `serde_json::to_vec(..)?`, then the message
  unfoldable pub put_json : ℕ → IoResult (List ℕ) → Action (Socket l) (Unit {0})
  unfolding put_encoded
  put_json msg_type body = put_encoded msg_type (from_json body)

module _ (l : Link) (j : ClientJson) where
  open j use {Value}

  unfoldable pub accepted : HandshakeResponse → Result String
  accepted r = if not r.success then err (protocol "handshake rejected") else ok r.session_id

  unfoldable pub check_ack : ℕ × List ℕ → Result String
  unfolding accepted
  check_ack (msg_type, payload) =
      if not (msg_type == msg_handshake_ack)
      then err (protocol "invalid handshake response")
      else and_then (from_json (j.read_handshake_response payload)) accepted

  -- the handshake on a socket that was reached: the session's id
  unfoldable pub greet : ℕ → Action (Socket l) String
  unfolding put_json await_message check_ack
  greet limit = do
    put_json msg_handshake (j.hello_body (hello "protocol-client"))
    m ← await_message limit
    lift (check_ack m)

  -- The halves of a socket are put together again, which fails only for halves of two sockets.
  unfoldable pub joined : Result String × Socket l → UdsClient l → Result (Unit {0}) × UdsClient l
  joined (ok session, s) c =
      (ok tt, record c { session_id = some session; connected = true; stream = some s })
  joined (err e, s) c = (err e, c)

  unfoldable pub connect : Dialled l → UdsClient l → Result (Unit {0}) × UdsClient l
  unfolding joined greet
  connect (reached s) c = joined (greet c.request_timeout s) c
  connect (refused e) c = (err (connection_failed e), c)
  connect too_slow c = (err timeout, c)

  -- what comes of a request on the stream; an error drops the stream
  unfoldable pub settled : {A : Type 0} → Result A × Socket l → UdsClient l → Result A × UdsClient l
  settled (ok a, s) c = (ok a, record c { stream = some s })
  settled (err e, s) c = (err e, record c { connected = false; stream = none })

  unfoldable pub on_stream :
      {A : Type 0} → Action (Socket l) A → Option (Socket l) → UdsClient l → Result A × UdsClient l
  unfolding settled
  on_stream m none c = (err connection_closed, record c { connected = false; stream = none })
  on_stream m (some s) c = settled (m s) c

  unfoldable pub after_connect :
      {A : Type 0} → Action (Socket l) A → Result (Unit {0}) × UdsClient l → Result A × UdsClient l
  unfolding on_stream
  after_connect m (ok _, c) = on_stream m c.stream c
  after_connect m (err e, c) = (err e, c)

  unfoldable pub start :
      {A : Type 0}
      → Option (Socket l)
      → Dialled l
      → Action (Socket l) A
      → UdsClient l
      → Result A × UdsClient l
  unfolding after_connect connect
  start none d m c = after_connect m (connect d c)
  start (some s) d m c = on_stream m (some s) c

  -- the frame that `call`, `call_streaming` and `get_schema` share; `d` is what dialling comes to,
  -- where there is no stream
  unfoldable pub with_stream :
      {A : Type 0} → Dialled l → Action (Socket l) A → UdsClient l → Result A × UdsClient l
  unfolding start
  with_stream d m c = start c.stream d m c

  unfoldable pub read_reply : ℕ × List ℕ → Result (ServiceResponse Value)
  read_reply (msg_type, payload) =
      if not (msg_type == msg_response)
      then err (protocol "invalid response type")
      else from_json (j.read_response payload)

  unfoldable pub do_call : ℕ → ServiceRequest Value → Action (Socket l) (ServiceResponse Value)
  unfolding put_json await_message read_reply
  do_call limit request = do
    put_json msg_request (j.request_body request)
    m ← await_message limit
    lift (read_reply m)

  unfoldable pub call :
      Dialled l → ServiceRequest Value → UdsClient l → Result (ServiceResponse Value) × UdsClient l
  unfolding with_stream do_call
  call d request c = with_stream d (do_call c.request_timeout request) c

  read_schema_reply : ℕ × List ℕ → Result (ServiceSchema Value)
  read_schema_reply (msg_type, payload) =
      if not (msg_type == msg_schema_response)
      then err (protocol "expected schema response")
      else from_json (j.read_schema payload)

  unfoldable pub do_get_schema : ℕ → Action (Socket l) (ServiceSchema Value)
  unfolding put await_message read_schema_reply
  do_get_schema limit = do
    put msg_schema_request []
    m ← await_message limit
    lift (read_schema_reply m)

  unfoldable pub get_schema : Dialled l → UdsClient l → Result (ServiceSchema Value) × UdsClient l
  unfolding with_stream do_get_schema
  get_schema d c = with_stream d (do_get_schema c.request_timeout) c

  unfoldable pub close : UdsClient l → Result (Unit {0}) × UdsClient l
  close c = (ok tt, record c { connected = false; session_id = none; stream = none })

  -- What a message of a stream does: the messages so far, or the end of the loop.
  pub data Turn : Type 0 where
    goes_on : List (StreamMessage Value) → Turn
    ends : Result (List (StreamMessage Value)) → Turn

  unfoldable pub add_chunk : List (StreamMessage Value) → Result (StreamMessage Value) → Turn
  add_chunk got (ok m) = goes_on (got ++ m ∷ [])
  add_chunk got (err e) = ends (err e)

  unfoldable pub at_end : List (StreamMessage Value) → Result (StreamResponse Value) → Turn
  at_end got (ok r) =
      if starts_with r.status "error" then ends (err (protocol r.status)) else ends (ok got)
  at_end got (err e) = ends (err e)

  refused_by : Result String → Turn
  refused_by (ok text) = ends (err (protocol text))
  refused_by (err e) = ends (err e)

  -- the `match msg_type` of the loop
  unfoldable pub turn : List (StreamMessage Value) → ℕ × List ℕ → Turn
  unfolding add_chunk at_end refused_by
  turn got (msg_type, payload) =
      if msg_type == msg_stream_start
      then goes_on got
      else if msg_type == msg_stream_chunk
      then add_chunk got (from_json (j.read_stream_message payload))
      else if msg_type == msg_stream_end
      then at_end got (from_json (j.read_stream_response payload))
      else if msg_type == msg_error
      then refused_by (from_json (j.read_text payload))
      else ends (err (protocol (str_append "unexpected message type: " (decimal msg_type))))

  unfoldable pub take_turn :
      (List (StreamMessage Value) → Action (Socket l) (Option (List (StreamMessage Value))))
      → Turn
      → Action (Socket l) (Option (List (StreamMessage Value)))
  take_turn more (goes_on got) s = more got s
  take_turn more (ends (ok got)) s = (ok (some got), s)
  take_turn more (ends (err e)) s = (err e, s)

  -- the loop of `do_call_streaming_internal`, over at most so many messages; `none` where those are
  -- used up
  unfoldable pub collect :
      ℕ → ℕ → List (StreamMessage Value) → Action (Socket l) (Option (List (StreamMessage Value)))
  unfolding await_message turn take_turn
  collect zero limit got s = (ok none, s)
  collect (suc n) limit got s =
      continue (await_message limit s) (λ m. take_turn (collect n limit) (turn got m))

  unfoldable pub do_call_streaming :
      ℕ → ℕ → ServiceRequest Value → Action (Socket l) (Option (List (StreamMessage Value)))
  unfolding put_json collect
  do_call_streaming fuel limit request =
      put_json msg_stream_request (j.request_body request) >> collect fuel limit []

  abbrev pub in_mode : StreamMode → ServiceRequest Value → ServiceRequest Value
  in_mode mode r = record r { payload = j.with_stream_mode (as_str mode) r.payload }

  unfoldable pub call_streaming :
      ℕ
      → Dialled l
      → StreamMode
      → ServiceRequest Value
      → UdsClient l
      → Result (Option (List (StreamMessage Value))) × UdsClient l
  unfolding with_stream do_call_streaming
  call_streaming fuel d mode request c =
      with_stream d (do_call_streaming fuel c.request_timeout (in_mode mode request)) c
