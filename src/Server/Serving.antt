-- ===== src/Server/Serving.antt =====
-- src/server.rs: the service's metrics over the life of a connection.
use xprotocol.Prelude.{
  ℕ, ◌≤◌, refl, String, Bool, true, false, Option, none, some, List, [], ◌∷◌, arith, ltb, ◌==◌,
  length, decimal, str_eq,
}
use xprotocol.Error.{Result, ok, err, IoResult, io_ok, io_err, from_json}
use xprotocol.Action.{Action, pure, ◌>>◌}
use xprotocol.Protocol.{ServiceRequest, ServiceResponse}
use xprotocol.Metrics.{request_start, request_end}
use xprotocol.Wire.{
  AsyncWrite, msg_request, msg_response, msg_stream_request, msg_ping, msg_schema_request,
  msg_close,
}
use xprotocol.Server.{ServerConfig}
use xprotocol.Server.Balance.{
  Owes-refl, Owes-request_start, Owes-request_end, Ends-keep, Pays, Pays-if, Pays-then, Pays-pure,
}
use xprotocol.Server.Connection.{
  Json, Handler, Connection, Notice, request_received, response_sent, Incoming, received,
  read_error, too_late, written, serve_message, serve, measure, notify, notify_at, send, send_json,
  send_encoded, send_error, reject, reply, on_decoded, on_request, stream, going_on,
}

module _ (t : AsyncWrite) (j : Json) (h : Handler j.Value) (config : ServerConfig) where
  open t use {W}
  open j use {Value}

  Pays-send :
      (i msg_type : ℕ) (payload : List ℕ) → i ≤ 1 → Pays i i (send t j h config msg_type payload)
  unfolding send written
  Pays-send i msg_type payload small = record {
    at = λ c. Ends-keep i c (send t j h config msg_type payload c) small refl;
  }

  Pays-send_encoded :
      (i msg_type : ℕ) (body : Result (List ℕ))
      → i ≤ 1
      → Pays i i (send_encoded t j h config msg_type body)
  unfolding send_encoded
  Pays-send_encoded i msg_type (ok body) small = record {
    at = λ c. (Pays-send i msg_type body small).at c;
  }
  Pays-send_encoded i msg_type (err e) small = record {
    at = λ c. Ends-keep {A = Unit} i c (err e, c) small refl;
  }

  pub Pays-send_json :
      (i msg_type : ℕ) (body : IoResult (List ℕ))
      → i ≤ 1
      → Pays i i (send_json t j h config msg_type body)
  unfolding send_json
  Pays-send_json i msg_type body small = Pays-send_encoded i msg_type (from_json body) small

  Pays-notify_at :
      (i : ℕ) (url : Option String) (n : Notice) → i ≤ 1 → Pays i i (notify_at t j h config url n)
  unfolding notify_at
  Pays-notify_at i none n small = record { at = λ c. Owes-refl i c.metrics }
  Pays-notify_at i (some url) n small = record { at = λ c. Owes-refl i c.metrics }

  pub Pays-notify : (i : ℕ) (n : Notice) → i ≤ 1 → Pays i i (notify t j h config n)
  unfolding notify
  Pays-notify i n small = Pays-notify_at i config.webhook_url n small

  Pays-start : Pays 0 1 (measure t j h config request_start)
  unfolding measure
  Pays-start = record { at = λ c. Owes-request_start c.metrics }

  Pays-end :
      (latency : ℕ) (success : Bool)
      → Pays 1 0 (measure t j h config (request_end latency success false))
  unfolding measure
  Pays-end latency success = record { at = λ c. Owes-request_end latency success c.metrics }

  Pays-reject : (latency : ℕ) (text : String) → Pays 1 0 (reject t j h config latency text)
  unfolding reject send_error
  Pays-reject latency text =
      Pays-then 1 0 0 (measure t j h config (request_end latency false false))
        (λ _. send_error t j h config text) (Pays-end latency false)
        (λ _. Pays-send_json 0 _ _ (omega arith))

  Pays-reply :
      (latency : ℕ) (response : ServiceResponse Value)
      → Pays 1 0 (reply t j h config latency response)
  unfolding reply
  Pays-reply latency response =
      let success = str_eq response.status "success" in
      let notice = response_sent response.request_id h.service_name response.status latency in
      Pays-then 1 1 0 (send_json t j h config msg_response (j.response_body response))
        (λ _.
          measure t j h config (request_end latency success false) >> notify t j h config notice)
        (Pays-send_json 1 _ _ (omega arith))
        (λ _.
          Pays-then 1 0 0 (measure t j h config (request_end latency success false))
            (λ _. notify t j h config notice) (Pays-end latency success)
            (λ _. Pays-notify 0 _ (omega arith)))

  Pays-on_decoded :
      (now latency : ℕ) (r : IoResult (ServiceRequest Value))
      → Pays 1 0 (on_decoded t j h config now latency r)
  unfolding on_decoded
  Pays-on_decoded now latency (io_err e) = Pays-reject latency _
  Pays-on_decoded now latency (io_ok request) =
      Pays-if 1 0 _ _ _ (Pays-reject latency _) (Pays-reply latency (h.handle now request))

  Pays-on_request :
      (client_id : String) (now latency : ℕ) (payload : List ℕ)
      → Pays 0 0 (on_request t j h config client_id now latency payload)
  unfolding on_request
  Pays-on_request client_id now latency payload =
      let notice = request_received client_id h.service_name (decimal msg_request) in
      let decoded = on_decoded t j h config now latency (j.read_request payload) in
      Pays-then 0 1 0 (measure t j h config request_start)
        (λ _. notify t j h config notice >> decoded) Pays-start
        (λ _.
          Pays-then 1 1 0 (notify t j h config notice) (λ _. decoded)
            (Pays-notify 1 notice (omega arith))
            (λ _. Pays-on_decoded now latency (j.read_request payload)))

  Pays-stream : (now : ℕ) (r : Result (ServiceRequest Value)) → Pays 0 0 (stream t j h config now r)
  unfolding stream
  Pays-stream now (err e) = record { at = λ c. (0, omega arith, Owes-refl 0 c.metrics) }
  Pays-stream now (ok request) =
      Pays-then 0 0 0 _ _ (Pays-send_json 0 _ _ (omega arith))
        (λ _. Pays-send_json 0 _ _ (omega arith))

  Pays-going_on :
      (m : Action (Connection W) (Unit {0})) → Pays 0 0 m → Pays 0 0 (going_on t j h config m)
  unfolding going_on
  Pays-going_on m k = Pays-then 0 0 0 m (λ _. pure true) k (λ _. Pays-pure true)

  Pays-serve_message :
      (client_id : String) (i : Incoming) → Pays 0 0 (serve_message t j h config client_id i)
  unfolding serve_message
  Pays-serve_message client_id (read_error e) = Pays-pure false
  Pays-serve_message client_id too_late = Pays-pure false
  Pays-serve_message client_id (received now latency msg_type payload) =
      Pays-if 0 0 (ltb config.max_request_size (length payload)) _ _
        (Pays-going_on _ (Pays-send_json 0 _ _ (omega arith)))
        (Pays-if 0 0 (msg_type == msg_request) _ _
          (Pays-going_on _ (Pays-on_request client_id now latency payload))
          (Pays-if 0 0 (msg_type == msg_stream_request) _ _
            (Pays-if 0 0 config.enable_streaming _ _ (Pays-going_on _ (Pays-stream now _))
              (Pays-pure true))
            (Pays-if 0 0 (msg_type == msg_ping) _ _
              (Pays-going_on _ (Pays-send 0 _ _ (omega arith)))
              (Pays-if 0 0 (msg_type == msg_schema_request) _ _
                (Pays-if 0 0 config.enable_schema_introspection _ _
                  (Pays-going_on _ (Pays-send_json 0 _ _ (omega arith))) (Pays-pure true))
                (Pays-if 0 0 (msg_type == msg_close) _ _ (Pays-pure false) (Pays-pure true))))))

  pub Pays-serve :
      (client_id : String) (is : List Incoming) → Pays 0 0 (serve t j h config client_id is)
  unfolding serve
  Pays-serve client_id [] = Pays-pure tt
  Pays-serve client_id (i ∷ is) =
      Pays-then 0 0 0 _ _ (Pays-serve_message client_id i)
        (λ more. Pays-if 0 0 more _ _ (Pays-serve client_id is) (Pays-pure tt))
