-- ===== src/Server/Answering.antt =====
-- src/server.rs: what the peer is sent in answer to a message.
use xprotocol.Prelude.{
  ℕ, ◌+◌, ◌≤◌, ◌≡◌, refl, String, true, false, List, [], ◌∷◌, ◌++◌, length, ltb-false, arith,
  str_eq, decimal, Option-cases, inl, inr,
}
use xprotocol.Error.{ProtocolError, ok, err, io_ok}
use xprotocol.Protocol.{ServiceRequest}
use xprotocol.Metrics.{request_start, request_end}
use xprotocol.Wire.{
  AsyncWrite, max_message_size, msg_ping, msg_pong, msg_request, msg_response, write_message,
}
use xprotocol.Wire.Frames.{frame, write_message-frame}
use xprotocol.Server.{ServerConfig, validate_request}
use xprotocol.Server.Connection.{
  Json, Handler, Connection, request_received, response_sent, received, map_metrics, serve_message,
}

module _ (t : AsyncWrite) (j : Json) (h : Handler j.Value) (config : ServerConfig) where
  open t use {W, sent, IsOpen}
  open j use {Value}

  -- The turn of the loop succeeds and goes on, and the peer is sent the frame of one message.
  pub record Answers (client_id : String) (now latency : ℕ) (msg_type : ℕ) (payload : List ℕ)
      (answer : ℕ) (body : List ℕ) (c d : Connection W) : Type 0 where
    pub turn :
        serve_message t j h config client_id (received now latency msg_type payload) c
        ≡ (ok true, d)
    pub frame_sent : sent d.writer ≡ sent c.writer ++ frame answer body
    pub open_still : IsOpen d.writer

  -- A ping within the size limit, on an open stream, is answered by an empty pong, and changes
  -- neither metrics nor notices.
  pub serve_message_ping :
      (client_id : String) (now latency : ℕ) (payload : List ℕ) (c : Connection W)
      → length payload ≤ config.max_request_size
      → IsOpen c.writer
      → (d : Connection W) × Answers client_id now latency msg_ping payload msg_pong [] c d
        × (d.metrics ≡ c.metrics)
        × (d.notices ≡ c.notices)
  unfolding serve_message
  serve_message_ping client_id now latency payload c small is_open =
      let (w, e, s, o) = write_message-frame t msg_pong [] c.writer is_open (omega arith) in
      (
        record c { writer = w },
        record {
          turn = rw (ltb-false config.max_request_size (length payload) small) (rw e refl);
          frame_sent = s;
          open_still = o;
        },
        refl,
        refl,
      )

  -- A request within the limits that decodes and is valid, on an open stream, is answered by the
  -- encoded response of the handler, and counted once as started and once as ended, as a success
  -- exactly where the response says so.
  pub serve_message_request :
      (client_id : String) (now latency : ℕ) (payload body : List ℕ)
      (request : ServiceRequest Value) (c : Connection W)
      → length payload ≤ config.max_request_size
      → j.read_request payload ≡ io_ok request
      → validate_request j.bytes request ≡ true
      → j.response_body (h.handle now request) ≡ io_ok body
      → 2 + length body ≤ max_message_size
      → IsOpen c.writer
      → (d : Connection W) × Answers client_id now latency msg_request payload msg_response body c d
        × (d.metrics
            ≡ map_metrics
                (request_end latency (str_eq (h.handle now request).status "success") false)
                (map_metrics request_start c.metrics))
  unfolding serve_message
  serve_message_request client_id now latency payload body request c small read valid encoded fits
        is_open =
      let (w, e, s, o) = write_message-frame t msg_response body c.writer is_open fits in
      let response = h.handle now request in
      let success = str_eq response.status "success" in
      let metrics =
        map_metrics (request_end latency success false) (map_metrics request_start c.metrics) in
      elim (Option-cases config.webhook_url) [
        | inl unset ↦ (
          record c { writer = w; metrics = metrics; notices = c.notices },
          record {
            turn =
                rw (ltb-false config.max_request_size (length payload) small)
                  (rw (unset, read) (rw valid (rw encoded (rw e refl))));
            frame_sent = s;
            open_still = o;
          },
          refl,
        )
        | inr (url, set) ↦ (
          record c {
            writer = w;
            metrics = metrics;
            notices =
                response_sent response.request_id h.service_name response.status latency
                ∷ request_received client_id h.service_name (decimal msg_request)
                ∷ c.notices;
          },
          record {
            turn =
                rw (ltb-false config.max_request_size (length payload) small)
                  (rw (set, read) (rw valid (rw encoded (rw e refl))));
            frame_sent = s;
            open_still = o;
          },
          refl,
        )
      ]

  -- Where the response to a valid request cannot be written, the connection ends with that error,
  -- and the request stays counted as started: it is never counted as ended.
  pub serve_message_leaks :
      (client_id : String) (now latency : ℕ) (payload body : List ℕ)
      (request : ServiceRequest Value) (e : ProtocolError) (w : W) (c : Connection W)
      → length payload ≤ config.max_request_size
      → j.read_request payload ≡ io_ok request
      → validate_request j.bytes request ≡ true
      → j.response_body (h.handle now request) ≡ io_ok body
      → write_message t msg_response body c.writer ≡ (err e, w)
      → ((serve_message t j h config client_id (received now latency msg_request payload) c).0
          ≡ err e)
        × ((serve_message t j h config client_id
              (received now latency msg_request payload)
              c).1.metrics
            ≡ map_metrics request_start c.metrics)
  unfolding serve_message
  serve_message_leaks client_id now latency payload body request e w c small read valid encoded
        broken =
      elim (Option-cases config.webhook_url) [
        | inl unset ↦
            rw (ltb-false config.max_request_size (length payload) small)
              (rw (unset, read) (rw valid (rw encoded (rw broken (refl, refl)))))
        | inr (url, set) ↦
            rw (ltb-false config.max_request_size (length payload) small)
              (rw (set, read) (rw valid (rw encoded (rw broken (refl, refl)))))
      ]
