-- ===== src/Client/Uds/Remote.antt =====
-- src/client.rs and src/server.rs together: a call, over a socket, to the server's loop.
use mathlib.Core.List.{append-nil, append_cancel_left}
use xprotocol.Prelude.{
  ℕ, ◌+◌, ◌≤◌, ◌≡◌, refl, ap, subst, sym, ◌∙◌, String, Bool, true, Option, some, List, [], ◌++◌,
  length,
}
use xprotocol.Error.{Result, ok, err, io_ok}
use xprotocol.Action.{Action}
use xprotocol.Protocol.{ServiceRequest, ServiceResponse}
use xprotocol.Wire.{
  AsyncWrite, AsyncRead, max_message_size, msg_request, msg_response, read_message,
}
use xprotocol.Wire.Frames.{frame}
use xprotocol.Wire.Decoding.{read_message-frame}
use xprotocol.Server.{ServerConfig, validate_request}
use xprotocol.Server.Connection.{Json, Handler, Connection, received, read_error, serve_message}
use xprotocol.Server.Answering.{serve_message_request}
use xprotocol.Client.Uds.{
  Link, Socket, ClientJson, UdsClient, Dialled, put, call, do_call, with_stream, settled, start,
  on_stream,
}
use xprotocol.Client.Uds.Sockets.{put-frame, await_message-frame}

-- The server's end: the stream that it reads, and the connection that it serves.
module _ (t : AsyncWrite) (tr : AsyncRead) (sj : Json) (h : Handler sj.Value)
    (config : ServerConfig) where
  serve_read :
      String → ℕ → ℕ → Result (ℕ × List ℕ) × tr.R → Connection t.W → Result Bool × Connection t.W
  serve_read client_id now latency (ok (msg_type, payload), r) c =
      serve_message t sj h config client_id (received now latency msg_type payload) c
  serve_read client_id now latency (err e, r) c =
      serve_message t sj h config client_id (read_error e) c

  -- one turn of the loop, on what the stream delivers next
  unfoldable pub server_turn : String → ℕ → ℕ → tr.R → Connection t.W → Result Bool × Connection t.W
  unfolding serve_read
  server_turn client_id now latency r c = serve_read client_id now latency (read_message tr r) c

module _ (l : Link) (j : ClientJson) (t : AsyncWrite) (tr : AsyncRead) (sj : Json)
    (h : Handler sj.Value) (config : ServerConfig) where
  -- A client and a server that have a socket between them: what the one has sent beyond what the
  -- other has taken is what the other takes next.
  pub record Joined (client_id : String) (now latency : ℕ) (body : List ℕ) (s : Socket l) (r : tr.R)
      (c : Connection t.W) : Type 0 where
    pub client_open : l.output.IsOpen s.writer
    pub server_open : t.IsOpen c.writer
    pub up :
        l.output.sent (put {l = l} msg_request body s).1.writer
        ≡ l.output.sent s.writer ++ tr.pending r
    pub down :
        t.sent (server_turn t tr sj h config client_id now latency r c).1.writer
        ≡ t.sent c.writer ++ l.input.pending s.reader

  pub server_turn-request :
      (client_id : String) (now latency : ℕ) (body answer : List ℕ)
      (request : ServiceRequest sj.Value) (r : tr.R) (c : Connection t.W)
      → tr.pending r ≡ frame msg_request body
      → 2 + length body ≤ max_message_size
      → length body ≤ config.max_request_size
      → sj.read_request body ≡ io_ok request
      → validate_request sj.bytes request ≡ true
      → sj.response_body (h.handle now request) ≡ io_ok answer
      → 2 + length answer ≤ max_message_size
      → t.IsOpen c.writer
      → (d : Connection t.W) × (server_turn t tr sj h config client_id now latency r c
          ≡ (ok true, d))
        × (t.sent d.writer ≡ t.sent c.writer ++ frame msg_response answer)
        × t.IsOpen d.writer
  unfolding server_turn
  server_turn-request client_id now latency body answer request r c arrives fits small read valid
        encoded answer_fits o =
      let (r', e, _) =
        read_message-frame tr msg_request body [] r fits
          (arrives ∙ sym (append-nil (frame msg_request body))) in
      let (d, answered, _) =
        serve_message_request t sj h config client_id now latency body answer request c small read
          valid encoded answer_fits o in
      (d, rw e answered.turn, answered.frame_sent, answered.open_still)

  do_call-response :
      (limit : ℕ) (body answer : List ℕ) (request : ServiceRequest j.Value)
      (response : ServiceResponse j.Value) (s : Socket l)
      → j.request_body request ≡ io_ok body
      → 2 + length body ≤ max_message_size
      → j.read_response answer ≡ io_ok response
      → 2 + length answer ≤ max_message_size
      → l.output.IsOpen s.writer
      → l.in_time limit s.reader ≡ true
      → l.input.pending s.reader ≡ frame msg_response answer
      → (do_call l j limit request s).0 ≡ ok response
  unfolding do_call
  do_call-response limit body answer request response s encoded fits decoded answer_fits o timely
        arrives =
      let (w, e, _, _) = put-frame msg_request body s o fits in
      let (r, f, _) =
        await_message-frame limit msg_response answer [] (record s { writer = w }) answer_fits
          timely (arrives ∙ sym (append-nil (frame msg_response answer))) in
      rw encoded (rw e (rw f (rw decoded refl)))

  settled-result :
      {A : Type 0} (x : Result A × Socket l) (c : UdsClient l) → (settled l j x c).0 ≡ x.0
  unfolding settled
  settled-result (ok a, s) c = refl
  settled-result (err e, s) c = refl

  start-result :
      {A : Type 0} (o : Option (Socket l)) (d : Dialled l) (m : Action (Socket l) A)
      (c : UdsClient l) (s : Socket l)
      → o ≡ some s
      → (start l j o d m c).0 ≡ (m s).0
  unfolding start on_stream
  start-result o d m c s e =
      subst (λ p. (start l j p d m c).0 ≡ (m s).0) (sym e) (settled-result (m s) c)

  -- A call is transparent. Client and server have an open socket between them; the request encodes
  -- to a body within the limits, which the server decodes to a valid request; the response to that
  -- encodes within the limit, and the client decodes it, before its timeout. Then the call gives
  -- the decoded response, and the server's turn succeeds and goes on.
  pub call_transparent :
      (client_id : String) (now latency : ℕ) (body answer : List ℕ) (d : Dialled l)
      (c : UdsClient l) (s : Socket l) (r : tr.R) (cs : Connection t.W)
      (request : ServiceRequest j.Value) (request' : ServiceRequest sj.Value)
      (response : ServiceResponse j.Value)
      → c.stream ≡ some s
      → Joined client_id now latency body s r cs
      → j.request_body request ≡ io_ok body
      → 2 + length body ≤ max_message_size
      → length body ≤ config.max_request_size
      → sj.read_request body ≡ io_ok request'
      → validate_request sj.bytes request' ≡ true
      → sj.response_body (h.handle now request') ≡ io_ok answer
      → 2 + length answer ≤ max_message_size
      → l.in_time c.request_timeout s.reader ≡ true
      → j.read_response answer ≡ io_ok response
      → ((call l j d request c).0 ≡ ok response)
        × ((server_turn t tr sj h config client_id now latency r cs).0 ≡ ok true)
  unfolding call with_stream
  call_transparent client_id now latency body answer d c s r cs request request' response st joined
        enc fits small read valid senc sfits timely dec =
      let (w, e, sent, _) = put-frame {l = l} msg_request body s joined.client_open fits in
      let reaches : tr.pending r ≡ frame msg_request body =
        append_cancel_left (l.output.sent s.writer) _ _ (
          sym joined.up
          ∙ ap (λ (x : Result (Unit {0}) × Socket l). l.output.sent x.1.writer) e
          ∙ sent) in
      let (q, f, replied, _) =
        server_turn-request client_id now latency body answer request' r cs reaches fits small read
          valid senc sfits joined.server_open in
      let returns : l.input.pending s.reader ≡ frame msg_response answer =
        append_cancel_left (t.sent cs.writer) _ _ (
          sym joined.down
          ∙ ap (λ (x : Result Bool × Connection t.W). t.sent x.1.writer) f
          ∙ replied) in
      let done =
        do_call-response c.request_timeout body answer request response s enc fits dec sfits
          joined.client_open timely returns in
      (
        start-result c.stream d (do_call l j c.request_timeout request) c s st ∙ done,
        ap (λ (x : Result Bool × Connection t.W). x.0) f,
      )
