-- ===== src/Server/Lifetime.antt =====
-- src/server.rs: the service's metrics from the handshake to the end of a connection.
use xprotocol.Prelude.{ℕ, String, Bool, not, List, length, arith, ltb, ◌==◌, if◌then◌else◌}
use xprotocol.Error.{ProtocolError, Result, ok, err, from_json, resource_exhausted}
use xprotocol.Action.{Action, pure, fail, ◌>>=◌, ◌>>◌}
use xprotocol.Protocol.{HandshakeRequest}
use xprotocol.Wire.{AsyncWrite, msg_handshake, msg_handshake_ack}
use xprotocol.Server.{ServerConfig}
use xprotocol.Server.Connection.{
  Json, Handler, Connection, Incoming, request_received, notify, rate_limited, send_json,
  send_error, welcome, handshake, serve, handle_connection,
}
use xprotocol.Server.Balance.{Ends, Pays, Pays-then, Pays-pure, Pays-if, Owes-refl}
use xprotocol.Server.Serving.{Pays-serve, Pays-send_json, Pays-notify}

module _ (t : AsyncWrite) (j : Json) (h : Handler j.Value) (config : ServerConfig) where
  open t use {W}

  Pays-fail : {A : Type 0} (e : ProtocolError) → Pays 0 0 (fail {S = Connection W} {A = A} e)
  Pays-fail e = record { at = λ c. (0, omega arith, Owes-refl 0 c.metrics) }

  Pays-rate_limited :
      (now : ℕ) (client_id : String) → Pays 0 0 (rate_limited t j h config now client_id)
  unfolding rate_limited
  Pays-rate_limited now client_id = record { at = λ c. Owes-refl 0 c.metrics }

  refusal : Action (Connection W) String
  refusal =
      send_error t j h config "rate limit exceeded"
      >> fail (resource_exhausted "rate limit exceeded")

  acknowledge : HandshakeRequest → Action (Connection W) String
  acknowledge request =
      send_json t j h config msg_handshake_ack (j.handshake_body (h.on_handshake request))
      >> pure request.client_id

  Pays-refusal : Pays 0 0 refusal
  unfolding refusal send_error
  Pays-refusal =
      Pays-then 0 0 0 _ _ (Pays-send_json t j h config 0 _ _ (omega arith)) (λ _. Pays-fail _)

  Pays-acknowledge : (request : HandshakeRequest) → Pays 0 0 (acknowledge request)
  unfolding acknowledge
  Pays-acknowledge request =
      Pays-then 0 0 0 _ _ (Pays-send_json t j h config 0 _ _ (omega arith))
        (λ _. Pays-pure request.client_id)

  Pays-welcome : (now : ℕ) (r : Result HandshakeRequest) → Pays 0 0 (welcome t j h config now r)
  unfolding welcome refusal acknowledge
  Pays-welcome now (err e) = Pays-fail e
  Pays-welcome now (ok request) =
      let notice = request_received request.client_id h.service_name "handshake" in
      let decide = λ (passes : Bool). if passes then acknowledge request else refusal in
      Pays-then 0 0 0 (notify t j h config notice)
        (λ _. rate_limited t j h config now request.client_id >>= decide)
        (Pays-notify t j h config 0 notice (omega arith))
        (λ _.
          Pays-then 0 0 0 (rate_limited t j h config now request.client_id) decide
            (Pays-rate_limited now request.client_id)
            (λ passes. Pays-if 0 0 passes _ _ (Pays-acknowledge request) Pays-refusal))

  Pays-handshake :
      (now : ℕ) (first : Result (ℕ × List ℕ)) → Pays 0 0 (handshake t j h config now first)
  unfolding handshake
  Pays-handshake now (err e) = Pays-fail e
  Pays-handshake now (ok (msg_type, payload)) =
      Pays-if 0 0 (not (msg_type == msg_handshake)) _ _ (Pays-fail _) (
        Pays-if 0 0 (ltb config.max_request_size (length payload)) _ _ (Pays-fail _)
          (Pays-welcome now (from_json (j.read_handshake payload))))

  -- Whatever a client sends, and whatever fails: where the handler of a connection returns Ok, every
  -- request that it counted as started it has counted as ended, once, and the number of active
  -- requests is what it was, modulo 2 ^ 64; where it returns an error, at most one request stays
  -- counted as active.
  pub handle_connection-Ends :
      (now : ℕ) (first : Result (ℕ × List ℕ)) (is : List Incoming) (c : Connection W)
      → Ends 0 0 c (handle_connection t j h config now first is c)
  unfolding handle_connection
  handle_connection-Ends now first is c =
      (Pays-then 0 0 0 (handshake t j h config now first)
          (λ client_id. serve t j h config client_id is) (Pays-handshake now first)
          (λ client_id. Pays-serve t j h config client_id is)).at
        c
