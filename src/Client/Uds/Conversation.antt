-- ===== src/Client/Uds/Conversation.antt =====
-- src/client.rs and src/server.rs: what comes of a whole connection between them.
use xprotocol.Prelude.{
  ℕ, ◌+◌, ◌≤◌, ◌≡◌, refl, ap, All, sym, ◌∙◌, String, some, List, [], ◌∷◌, ◌++◌, length, map, true,
  arith, Bool, ◌<◌, subst,
}
use mathlib.Core.List.{append-nil}
use xprotocol.Error.{Result, ok, io_ok}
use xprotocol.Protocol.{ServiceRequest, ServiceResponse}
use xprotocol.Wire.{AsyncWrite, AsyncRead, max_message_size, msg_request, msg_response}
use xprotocol.Wire.Frames.{frame}
use xprotocol.Wire.Memory.{drop-length-append}
use xprotocol.Wire.Decoding.{read_message-frame}
use xprotocol.Server.{ServerConfig, validate_request}
use xprotocol.Server.Connection.{Json, Handler, Connection}
use xprotocol.Client.Uds.{
  Link, Socket, ClientJson, UdsClient, Dialled, put_json, do_call, call, with_stream, start,
  on_stream, settled,
}
use xprotocol.Client.Uds.Sockets.{put-frame, await_message-frame}
use xprotocol.Client.Uds.Remote.{server_turn-request}
use xprotocol.Client.Uds.Network.{
  Network, Asked, Peer, Pair, news, kept, peer_turn, hear_up, hear_down, talk, talk_all,
}

news-append : (a b : List ℕ) → news a (a ++ b) ≡ b
unfolding news
news-append a b = drop-length-append a b

pub frame_positive : (msg_type : ℕ) (payload : List ℕ) → 0 < length (frame msg_type payload)
frame_positive msg_type payload = omega arith

module _ (l : Link) (j : ClientJson) where
  -- The client's half: a call that finds the frame of a response gives that response, and leaves the
  -- socket open with nothing more on it.
  call-answered :
      (body answer : List ℕ) (request : ServiceRequest j.Value) (response : ServiceResponse j.Value)
      (c : UdsClient l) (s : Socket l)
      → j.request_body request ≡ io_ok body
      → 2 + length body ≤ max_message_size
      → j.read_response answer ≡ io_ok response
      → 2 + length answer ≤ max_message_size
      → l.output.IsOpen s.writer
      → l.in_time c.request_timeout s.reader ≡ true
      → l.input.pending s.reader ≡ frame msg_response answer
      → (s' : Socket l) × (call l j Dialled.too_slow request (record c { stream = some s })
          ≡ (ok response, record c { stream = some s' }))
        × l.output.IsOpen s'.writer
        × (l.input.pending s'.reader ≡ [])
  unfolding call with_stream do_call start on_stream settled
  call-answered body answer request response c s encoded fits decoded answer_fits o timely arrives =
      let (w, e, _, still) = put-frame {l = l} msg_request body s o fits in
      let (r, f, rest) =
        await_message-frame {l = l} c.request_timeout msg_response answer []
          (record s { writer = w }) answer_fits timely
          (arrives ∙ sym (append-nil (frame msg_response answer))) in
      (record { reader = r; writer = w }, rw encoded (rw e (rw f (rw decoded refl))), still, rest)

module _ (l : Link) (j : ClientJson) (t : AsyncWrite) (tr : AsyncRead) (sj : Json)
    (h : Handler sj.Value) (config : ServerConfig) (n : Network l tr) where
  -- Both ends open, and nothing on the way between them.
  pub record Quiet (w : Pair l j t tr sj h config n) : Type 0 where
    pub socket : Socket l
    pub on_it : w.client.stream ≡ some socket
    pub client_open : l.output.IsOpen socket.writer
    pub server_open : t.IsOpen w.peer.conn.writer
    pub up_empty : tr.pending w.peer.reader ≡ []
    pub down_empty : l.input.pending socket.reader ≡ []

  -- Client and server agree on a request and its response: each side's bodies fit, and the other
  -- side decodes them.
  pub record Agreed (a : Asked j.Value) (response : ServiceResponse j.Value) : Type 0 where
    pub body : List ℕ
    pub answer : List ℕ
    pub request : ServiceRequest sj.Value
    pub encoded : j.request_body a.request ≡ io_ok body
    pub fits : 2 + length body ≤ max_message_size
    pub small : length body ≤ config.max_request_size
    pub read : sj.read_request body ≡ io_ok request
    pub valid : validate_request sj.bytes request ≡ true
    pub answered : sj.response_body (h.handle a.now request) ≡ io_ok answer
    pub answer_fits : 2 + length answer ≤ max_message_size
    pub decoded : j.read_response answer ≡ io_ok response

  peer_turn-request :
      (client_id : String) (a : Asked j.Value) (response : ServiceResponse j.Value)
      (g : Agreed a response) (p : Peer l j t tr sj h config n)
      → tr.pending p.reader ≡ frame msg_request g.body
      → t.IsOpen p.conn.writer
      → (q : Peer l j t tr sj h config n) × (peer_turn l j t tr sj h config n client_id a.now
            a.latency p
          ≡ (ok true, q))
        × (t.sent q.conn.writer ≡ t.sent p.conn.writer ++ frame msg_response g.answer)
        × t.IsOpen q.conn.writer
        × (tr.pending q.reader ≡ [])
  unfolding peer_turn kept
  peer_turn-request client_id a response g p arrives o =
      let (d, e, replied, still) =
        server_turn-request l j t tr sj h config client_id a.now a.latency g.body g.answer g.request
          p.reader p.conn arrives g.fits g.small g.read g.valid g.answered g.answer_fits o in
      let (r, f, rest) =
        read_message-frame tr msg_request g.body [] p.reader g.fits
          (arrives ∙ sym (append-nil (frame msg_request g.body))) in
      (record { reader = r; conn = d }, rw (e, f) refl, replied, still, rest)

  talk_steps :
      (client_id : String) (a : Asked j.Value) (s s' : Socket l) (w : Pair l j t tr sj h config n)
      (p : Peer l j t tr sj h config n) (x : Result (Unit {0})) (y : Result Bool)
      (r : Result (ServiceResponse j.Value)) (c : UdsClient l)
      → put_json {l = l} msg_request (j.request_body a.request) s ≡ (x, s')
      → peer_turn l j t tr sj h config n client_id a.now a.latency
          (hear_up l j t tr sj h config n (l.output.sent s.writer) (l.output.sent s'.writer) w.peer)
        ≡ (y, p)
      → call l j Dialled.too_slow a.request (record w.client {
        stream = some (hear_down l j t tr sj h config n w.peer.conn p.conn s);
      })
        ≡ (r, c)
      → talk l j t tr sj h config n client_id a (some s) w ≡ (r, record { client = c; peer = p })
  unfolding talk
  talk_steps client_id a s s' w p x y r c e1 e2 e3 = rw e1 (rw e2 (rw e3 refl))

  pub hear_up-pending :
      (before after bytes : List ℕ) (p : Peer l j t tr sj h config n)
      → after ≡ before ++ bytes
      → tr.pending p.reader ≡ []
      → tr.pending (hear_up l j t tr sj h config n before after p).reader ≡ bytes
  unfolding hear_up
  hear_up-pending before after bytes p e quiet =
      n.pending-arrive_up (news before after) p.reader
      ∙ ap (λ x. x ++ news before after) quiet
      ∙ ap (news before) e
      ∙ news-append before bytes

  pub hear_down-pending :
      (before after : Connection t.W) (bytes : List ℕ) (s : Socket l)
      → t.sent after.writer ≡ t.sent before.writer ++ bytes
      → l.input.pending s.reader ≡ []
      → l.input.pending (hear_down l j t tr sj h config n before after s).reader ≡ bytes
  unfolding hear_down
  hear_down-pending before after bytes s e quiet =
      n.pending-arrive_down (news (t.sent before.writer) (t.sent after.writer)) s.reader
      ∙ ap (λ x. x ++ news (t.sent before.writer) (t.sent after.writer)) quiet
      ∙ ap (news (t.sent before.writer)) e
      ∙ news-append (t.sent before.writer) bytes

  -- whatever is on the way down, it is there in time
  pub in_time_down :
      (limit : ℕ) (s : Socket l) (msg_type : ℕ) (payload : List ℕ)
      → l.input.pending s.reader ≡ frame msg_type payload
      → l.in_time limit s.reader ≡ true
  in_time_down limit s msg_type payload e =
      n.prompt limit s.reader (subst (λ x. 0 < length x) (sym e) (frame_positive msg_type payload))

  talk-Quiet :
      (client_id : String) (a : Asked j.Value) (response : ServiceResponse j.Value)
      (w : Pair l j t tr sj h config n) (s : Socket l)
      → Agreed a response
      → l.output.IsOpen s.writer
      → t.IsOpen w.peer.conn.writer
      → tr.pending w.peer.reader ≡ []
      → l.input.pending s.reader ≡ []
      → (w' : Pair l j t tr sj h config n) × (talk l j t tr sj h config n client_id a (some s) w
          ≡ (ok response, w'))
        × Quiet w'
  unfolding hear_up hear_down put_json
  talk-Quiet client_id a response w s g o so up down =
      let (u, e, sent, _) = put-frame {l = l} msg_request g.body s o g.fits in
      let p = hear_up l j t tr sj h config n (l.output.sent s.writer) (l.output.sent u) w.peer in
      let arrived : tr.pending p.reader ≡ frame msg_request g.body =
        hear_up-pending (l.output.sent s.writer) (l.output.sent u) (frame msg_request g.body) w.peer
          sent up in
      let (q, f, replied, still, rest) = peer_turn-request client_id a response g p arrived so in
      let s1 = hear_down l j t tr sj h config n w.peer.conn q.conn s in
      let back : l.input.pending s1.reader ≡ frame msg_response g.answer =
        hear_down-pending w.peer.conn q.conn (frame msg_response g.answer) s replied down in
      let (s2, k, still2, rest2) =
        call-answered l j g.body g.answer a.request response w.client s1 g.encoded g.fits g.decoded
          g.answer_fits o (in_time_down w.client.request_timeout s1 msg_response g.answer back)
          back in
      (
        record { client = record w.client { stream = some s2 }; peer = q },
        talk_steps client_id a s (record s { writer = u }) w q (ok tt) (ok true) (ok response)
            (record w.client { stream = some s2 }) (rw (g.encoded) e) f k,
        record {
          socket = s2;
          on_it = refl;
          client_open = still2;
          server_open = still;
          up_empty = rest;
          down_empty = rest2;
        },
      )

  -- A list of requests and the responses agreed on for them, all of which are given in order.
  pub talk_all-Quiet :
      (client_id : String) (xs : List (Asked j.Value × ServiceResponse j.Value))
      (w : Pair l j t tr sj h config n)
      → All (λ x. Agreed x.0 x.1) xs
      → Quiet w
      → (w' : Pair l j t tr sj h config n) × (talk_all l j t tr sj h config n client_id
            (map (λ x. x.0) xs)
            w
          ≡ (map (λ x. ok x.1) xs, w'))
        × Quiet w'
  unfolding talk_all
  talk_all-Quiet client_id [] w g q = (w, refl, q)
  talk_all-Quiet client_id ((a, response) ∷ xs) w (g, gs) q =
      let (w1, e, q1) =
        talk-Quiet client_id a response w q.socket g q.client_open q.server_open q.up_empty
          q.down_empty in
      let first : talk l j t tr sj h config n client_id a w.client.stream w ≡ (ok response, w1) =
        ap (λ o. talk l j t tr sj h config n client_id a o w) q.on_it ∙ e in
      let (w2, f, q2) = talk_all-Quiet client_id xs w1 gs q1 in (w2, rw first (rw f refl), q2)
