-- ===== src/Server/Connection.antt =====
-- src/server.rs: `UdsServer::handle_connection_with_config`. What the connection has written is
-- the state of the writer; every `?` leaves the connection.
use xprotocol.Prelude.{
  ℕ, String, Bool, true, false, not, Option, none, some, List, [], ◌∷◌, length, ltb, ◌==◌, decimal,
  str_append, str_eq, if◌then◌else◌,
}
use xprotocol.Error.{
  ProtocolError, protocol, invalid_message, resource_exhausted, Result, ok, err, IoResult, io_ok,
  io_err, from_json,
}
use xprotocol.Action.{Action, pure, fail, ◌>>=◌, ◌>>◌}
use xprotocol.Protocol.{HandshakeRequest, HandshakeResponse, ServiceRequest, ServiceResponse}
use xprotocol.Streaming.{StreamMode, result, as_str, from_str}
use xprotocol.Metrics.{ServiceMetrics, request_start, request_end}
use xprotocol.Wire.{
  AsyncWrite, write_message, msg_handshake, msg_handshake_ack, msg_request, msg_response,
  msg_stream_request, msg_stream_start, msg_stream_end, msg_error, msg_ping, msg_pong, msg_close,
  msg_schema_request, msg_schema_response,
}
use xprotocol.Auth.Limiter
use xprotocol.Auth.Limiter.{RateLimiter}
use xprotocol.Server.{ServerConfig, validate_request}

-- serde_json and the standard library, as far as a connection uses them
pub record Json : Type 1 where
  pub Value : Type 0
  pub read_handshake : List ℕ → IoResult HandshakeRequest
  pub handshake_body : HandshakeResponse → IoResult (List ℕ)
  -- `{"error": text}`
  pub error_body : String → IoResult (List ℕ)
  pub read_request : List ℕ → IoResult (ServiceRequest Value)
  pub response_body : ServiceResponse Value → IoResult (List ℕ)
  -- `payload.get("stream_mode").and_then(as_str)`
  pub stream_mode : Value → Option String
  -- `{"request_id": .., "mode": .., "status": "streaming"}`
  pub start_body : String → String → IoResult (List ℕ)
  -- `{"request_id": .., "status": .., "payload": ..}`
  pub end_body : String → String → Value → IoResult (List ℕ)
  -- `ServiceSchema::new(name, "1.0")`
  pub schema_body : String → IoResult (List ℕ)
  pub bytes : String → ℕ

-- a `ServiceHandler`, whose answer may depend on the time
pub record Handler (Value : Type 0) : Type 0 where
  pub service_name : String
  pub on_handshake : HandshakeRequest → HandshakeResponse
  pub handle : ℕ → ServiceRequest Value → ServiceResponse Value

pub data Notice : Type 0 where
  request_received : String → String → String → Notice
  response_sent : String → String → String → ℕ → Notice

-- `metrics` are those of the handler's service in the collector, where there is one; `notices` is
-- what the webhook service was asked to send, the newest first.
pub record Connection (W : Type 0) : Type 0 where
  pub writer : W
  pub metrics : Option ServiceMetrics
  pub notices : List Notice
  pub limiter : RateLimiter

-- `timeout(config.request_timeout, read_message(&mut reader)).await`. What was received comes with
-- the time, and with the latency that the request turns out to have.
pub data Incoming : Type 0 where
  received : ℕ → ℕ → ℕ → List ℕ → Incoming
  read_error : ProtocolError → Incoming
  too_late : Incoming

unfoldable pub map_metrics :
    (ServiceMetrics → ServiceMetrics) → Option ServiceMetrics → Option ServiceMetrics
map_metrics f none = none
map_metrics f (some m) = some (f m)

module _ (t : AsyncWrite) (j : Json) (h : Handler j.Value) (config : ServerConfig) where
  open t use {W}
  open j use {Value}

  abbrev pub Step : Type 0 → Type 0
  Step A = Action (Connection W) A

  unfoldable pub measure : (ServiceMetrics → ServiceMetrics) → Step (Unit {0})
  unfolding map_metrics
  measure f c = (ok tt, record c { metrics = map_metrics f c.metrics })

  -- the webhook service exists where the configuration has a URL; its result is ignored
  unfoldable pub notify_at : Option String → Notice → Step (Unit {0})
  notify_at none n c = (ok tt, c)
  notify_at (some url) n c = (ok tt, record c { notices = n ∷ c.notices })

  unfoldable pub notify : Notice → Step (Unit {0})
  unfolding notify_at
  notify n = notify_at config.webhook_url n

  unfoldable pub written : Result (Unit {0}) × W → Connection W → Result (Unit {0}) × Connection W
  written (r, w) c = (r, record c { writer = w })

  unfoldable pub send : ℕ → List ℕ → Step (Unit {0})
  unfolding written
  send msg_type payload c = written (write_message t msg_type payload c.writer) c

  unfoldable pub send_encoded : ℕ → Result (List ℕ) → Step (Unit {0})
  unfolding send
  send_encoded msg_type (ok body) c = send msg_type body c
  send_encoded msg_type (err e) c = (err e, c)

  -- `serde_json::to_vec(..)?`, then the message
  unfoldable pub send_json : ℕ → IoResult (List ℕ) → Step (Unit {0})
  unfolding send_encoded
  send_json msg_type body = send_encoded msg_type (from_json body)

  unfoldable pub send_error : String → Step (Unit {0})
  unfolding send_json
  send_error text = send_json msg_error (j.error_body text)

  unfoldable pub reject : ℕ → String → Step (Unit {0})
  unfolding measure send_error
  reject latency text = do measure (request_end latency false false); send_error text

  unfoldable pub reply : ℕ → ServiceResponse Value → Step (Unit {0})
  unfolding measure send_json notify
  reply latency response = do
    send_json msg_response (j.response_body response)
    measure (request_end latency (str_eq response.status "success") false)
    notify (response_sent response.request_id h.service_name response.status latency)

  unfoldable pub on_decoded : ℕ → ℕ → IoResult (ServiceRequest Value) → Step (Unit {0})
  unfolding reject reply
  on_decoded now latency (io_err e) = reject latency (str_append "invalid request: " e)
  on_decoded now latency (io_ok request) =
      if not (validate_request j.bytes request)
      then reject latency "invalid request format"
      else reply latency (h.handle now request)

  -- MSG_REQUEST
  unfoldable pub on_request : String → ℕ → ℕ → List ℕ → Step (Unit {0})
  unfolding measure notify on_decoded
  on_request client_id now latency payload = do
    measure request_start
    notify (request_received client_id h.service_name (decimal msg_request))
    on_decoded now latency (j.read_request payload)

  unfoldable pub or_result : Option StreamMode → StreamMode
  or_result none = result
  or_result (some m) = m

  unfoldable pub mode_named : Option String → Option StreamMode
  mode_named none = none
  mode_named (some s) = from_str s

  unfoldable pub stream : ℕ → Result (ServiceRequest Value) → Step (Unit {0})
  unfolding send_json or_result mode_named
  stream now (err e) = fail e
  stream now (ok request) =
      let response = h.handle now request in
      (do
        send_json msg_stream_start (
            j.start_body request.request_id
              (as_str (or_result (mode_named (j.stream_mode request.payload)))))
        send_json msg_stream_end (j.end_body response.request_id response.status response.payload))

  unfoldable pub going_on : Step (Unit {0}) → Step Bool
  going_on m = do m; pure true

  -- One turn of the loop; the Boolean says whether there is another.
  unfoldable pub serve_message : String → Incoming → Step Bool
  unfolding going_on send send_json send_error on_request stream
  serve_message client_id (read_error e) = pure false
  serve_message client_id too_late = pure false
  serve_message client_id (received now latency msg_type payload) =
      if ltb config.max_request_size (length payload)
      then going_on (
          send_error (
            str_append "payload too large: " (
              str_append (decimal (length payload))
                (str_append " > " (decimal config.max_request_size)))))
      else if msg_type == msg_request
      then going_on (on_request client_id now latency payload)
      else if msg_type == msg_stream_request
      then (if config.enable_streaming
          then going_on (stream now (from_json (j.read_request payload)))
          else pure true)
      else if msg_type == msg_ping
      then going_on (send msg_pong [])
      else if msg_type == msg_schema_request
      then (if config.enable_schema_introspection
          then going_on (send_json msg_schema_response (j.schema_body h.service_name))
          else pure true)
      else if msg_type == msg_close
      then pure false
      else pure true

  -- The loop, over what comes in: it ends with the first turn that has no other. Where the list ends
  -- before that, the result is what the connection has come to so far.
  unfoldable pub serve : String → List Incoming → Step (Unit {0})
  unfolding serve_message
  serve client_id [] = pure tt
  serve client_id (i ∷ is) =
      serve_message client_id i >>= λ more. if more then serve client_id is else pure tt

  unfoldable pub rate_limited : ℕ → String → Step Bool
  rate_limited now client_id c =
      let (passes, limiter) = Limiter.check now client_id c.limiter in
      (ok passes, record c { limiter = limiter })

  unfoldable pub welcome : ℕ → Result HandshakeRequest → Step String
  unfolding notify rate_limited send_error send_json
  welcome now (err e) = fail e
  welcome now (ok request) = do
    notify (request_received request.client_id h.service_name "handshake")
    passes ← rate_limited now request.client_id
    if passes
        then (do
          send_json msg_handshake_ack (j.handshake_body (h.on_handshake request))
          pure request.client_id)
        else (do send_error "rate limit exceeded"; fail (resource_exhausted "rate limit exceeded"))

  -- up to the loop: the first message must be a handshake. It gives the client's id.
  unfoldable pub handshake : ℕ → Result (ℕ × List ℕ) → Step String
  unfolding welcome
  handshake now (err e) = fail e
  handshake now (ok (msg_type, payload)) =
      if not (msg_type == msg_handshake)
      then fail (protocol "expected handshake")
      else if ltb config.max_request_size (length payload)
      then fail (
          invalid_message (
            str_append "handshake payload too large: " (
              str_append (decimal (length payload))
                (str_append " > " (decimal config.max_request_size)))))
      else welcome now (from_json (j.read_handshake payload))

  unfoldable pub handle_connection : ℕ → Result (ℕ × List ℕ) → List Incoming → Step (Unit {0})
  unfolding handshake serve
  handle_connection now first is = do client_id ← handshake now first; serve client_id is
