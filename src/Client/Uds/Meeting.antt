-- ===== src/Client/Uds/Meeting.antt =====
-- src/client.rs and src/server.rs: the handshake, and the connection that it begins.
use mathlib.Core.List.{append-nil}
use xprotocol.Prelude.{
  ℕ, ◌+◌, ◌≤◌, ◌≡◌, refl, sym, ◌∙◌, String, true, some, List, [], ◌∷◌, ◌++◌, length, map, All,
  ltb-false, Option-cases, inl, inr,
}
use xprotocol.Error.{Result, ok, io_ok}
use xprotocol.Protocol.{HandshakeRequest, HandshakeResponse, ServiceResponse}
use xprotocol.Wire.{AsyncWrite, AsyncRead, max_message_size, msg_handshake, msg_handshake_ack}
use xprotocol.Wire.Frames.{frame, write_message-frame}
use xprotocol.Wire.Decoding.{read_message-frame}
use xprotocol.Auth.Limiter
use xprotocol.Server.{ServerConfig}
use xprotocol.Server.Connection.{Json, Handler, Connection, request_received, welcome, handshake}
use xprotocol.Client.Uds.{
  Link, Socket, ClientJson, UdsClient, reached, hello, put_json, greet, check_ack, accepted, joined,
  connect,
}
use xprotocol.Client.Uds.Sockets.{put-frame, await_message-frame}
use xprotocol.Client.Uds.Network.{
  Network, Asked, Peer, Pair, kept, peer_handshake, hear_up, hear_down, talk_all, meet,
}
use xprotocol.Client.Uds.Conversation.{
  Quiet, Agreed, hear_up-pending, hear_down-pending, in_time_down, talk_all-Quiet,
}

module _ (t : AsyncWrite) (j : Json) (h : Handler j.Value) (config : ServerConfig) where
  -- A handshake that decodes, from a client that the limiter passes, is answered by the handler's
  -- acknowledgement, and gives the client's id.
  handshake-welcomed :
      (now : ℕ) (payload ack : List ℕ) (request : HandshakeRequest) (c : Connection t.W)
      → length payload ≤ config.max_request_size
      → j.read_handshake payload ≡ io_ok request
      → (Limiter.check now request.client_id c.limiter).0 ≡ true
      → j.handshake_body (h.on_handshake request) ≡ io_ok ack
      → 2 + length ack ≤ max_message_size
      → t.IsOpen c.writer
      → (d : Connection t.W) × (handshake t j h config now (ok (msg_handshake, payload)) c
          ≡ (ok request.client_id, d))
        × (t.sent d.writer ≡ t.sent c.writer ++ frame msg_handshake_ack ack)
        × t.IsOpen d.writer
  unfolding handshake welcome
  handshake-welcomed now payload ack request c small read passes encoded fits o =
      let (w, e, s, still) = write_message-frame t msg_handshake_ack ack c.writer o fits in
      let limiter = (Limiter.check now request.client_id c.limiter).1 in
      elim (Option-cases config.webhook_url) [
        | inl unset ↦ (
          record c { writer = w; limiter = limiter },
          rw (ltb-false config.max_request_size (length payload) small)
              (rw (read, unset) (rw passes (rw encoded (rw e refl)))),
          s,
          still,
        )
        | inr (url, set) ↦ (
          record c {
            writer = w;
            limiter = limiter;
            notices = request_received request.client_id h.service_name "handshake" ∷ c.notices;
          },
          rw (ltb-false config.max_request_size (length payload) small)
              (rw (read, set) (rw passes (rw encoded (rw e refl)))),
          s,
          still,
        )
      ]

module _ (l : Link) (j : ClientJson) where
  -- A client that finds an acknowledgement of success has the session that it names.
  connect-greeted :
      (body ack : List ℕ) (response : HandshakeResponse) (c : UdsClient l) (s : Socket l)
      → j.hello_body (hello "protocol-client") ≡ io_ok body
      → 2 + length body ≤ max_message_size
      → j.read_handshake_response ack ≡ io_ok response
      → response.success ≡ true
      → 2 + length ack ≤ max_message_size
      → l.output.IsOpen s.writer
      → l.in_time c.request_timeout s.reader ≡ true
      → l.input.pending s.reader ≡ frame msg_handshake_ack ack
      → (s' : Socket l) × (connect l j (reached s) c ≡ (
        ok tt,
        record c { session_id = some response.session_id; connected = true; stream = some s' },
      ))
        × l.output.IsOpen s'.writer
        × (l.input.pending s'.reader ≡ [])
  unfolding connect greet check_ack accepted joined
  connect-greeted body ack response c s encoded fits decoded success ack_fits o timely arrives =
      let (w, e, _, still) = put-frame {l = l} msg_handshake body s o fits in
      let (r, f, rest) =
        await_message-frame {l = l} c.request_timeout msg_handshake_ack ack []
          (record s { writer = w }) ack_fits timely
          (arrives ∙ sym (append-nil (frame msg_handshake_ack ack))) in
      (
        record { reader = r; writer = w },
        rw encoded (rw e (rw f (rw decoded (rw success refl)))),
        still,
        rest,
      )

module _ (l : Link) (j : ClientJson) (t : AsyncWrite) (tr : AsyncRead) (sj : Json)
    (h : Handler sj.Value) (config : ServerConfig) (n : Network l tr) where
  -- Client and server agree on the handshake: each reads what the other one wrote, the bodies fit,
  -- the handler accepts, and the limiter passes the client at that time.
  pub record Welcome (now : ℕ) (c : Connection t.W) : Type 0 where
    pub body : List ℕ
    pub ack : List ℕ
    pub encoded : j.hello_body (hello "protocol-client") ≡ io_ok body
    pub fits : 2 + length body ≤ max_message_size
    pub small : length body ≤ config.max_request_size
    pub read : sj.read_handshake body ≡ io_ok (hello "protocol-client")
    pub passes : (Limiter.check now "protocol-client" c.limiter).0 ≡ true
    pub answered : sj.handshake_body (h.on_handshake (hello "protocol-client")) ≡ io_ok ack
    pub ack_fits : 2 + length ack ≤ max_message_size
    pub decoded : j.read_handshake_response ack ≡ io_ok (h.on_handshake (hello "protocol-client"))
    pub success : (h.on_handshake (hello "protocol-client")).success ≡ true

  peer_handshake-welcomed :
      (now : ℕ) (p : Peer l j t tr sj h config n) (g : Welcome now p.conn)
      → tr.pending p.reader ≡ frame msg_handshake g.body
      → t.IsOpen p.conn.writer
      → (q : Peer l j t tr sj h config n) × (peer_handshake l j t tr sj h config n now p
          ≡ (ok "protocol-client", q))
        × (t.sent q.conn.writer ≡ t.sent p.conn.writer ++ frame msg_handshake_ack g.ack)
        × t.IsOpen q.conn.writer
        × (tr.pending q.reader ≡ [])
  unfolding peer_handshake kept
  peer_handshake-welcomed now p g arrives o =
      let (r, f, rest) =
        read_message-frame tr msg_handshake g.body [] p.reader g.fits
          (arrives ∙ sym (append-nil (frame msg_handshake g.body))) in
      let (d, e, replied, still) =
        handshake-welcomed t sj h config now g.body g.ack (hello "protocol-client") p.conn g.small
          g.read g.passes g.answered g.ack_fits o in
      (record { reader = r; conn = d }, rw f (rw e refl), replied, still, rest)

  meet_steps :
      (now : ℕ) (s s' : Socket l) (w : Pair l j t tr sj h config n)
      (p : Peer l j t tr sj h config n) (x r : Result (Unit {0})) (id : Result String)
      (c : UdsClient l)
      → put_json {l = l} msg_handshake (j.hello_body (hello "protocol-client")) s ≡ (x, s')
      → peer_handshake l j t tr sj h config n now
          (hear_up l j t tr sj h config n (l.output.sent s.writer) (l.output.sent s'.writer) w.peer)
        ≡ (id, p)
      → connect l j (reached (hear_down l j t tr sj h config n w.peer.conn p.conn s)) w.client
        ≡ (r, c)
      → meet l j t tr sj h config n now s w ≡ (r, (id, record { client = c; peer = p }))
  unfolding meet
  meet_steps now s s' w p x r id c e1 e2 e3 = rw e1 (rw e2 (rw e3 refl))

  meet-Quiet :
      (now : ℕ) (s : Socket l) (w : Pair l j t tr sj h config n) (g : Welcome now w.peer.conn)
      → l.output.IsOpen s.writer
      → t.IsOpen w.peer.conn.writer
      → tr.pending w.peer.reader ≡ []
      → l.input.pending s.reader ≡ []
      → (w' : Pair l j t tr sj h config n) × (meet l j t tr sj h config n now s w
          ≡ (ok tt, (ok "protocol-client", w')))
        × (w'.client.session_id ≡ some (h.on_handshake (hello "protocol-client")).session_id)
        × Quiet l j t tr sj h config n w'
  unfolding hear_up hear_down put_json
  meet-Quiet now s w g o so up down =
      let (u, e, sent, _) = put-frame {l = l} msg_handshake g.body s o g.fits in
      let p = hear_up l j t tr sj h config n (l.output.sent s.writer) (l.output.sent u) w.peer in
      let arrived : tr.pending p.reader ≡ frame msg_handshake g.body =
        hear_up-pending l j t tr sj h config n (l.output.sent s.writer) (l.output.sent u)
          (frame msg_handshake g.body) w.peer sent up in
      let (q, f, replied, still, rest) = peer_handshake-welcomed now p g arrived so in
      let s1 = hear_down l j t tr sj h config n w.peer.conn q.conn s in
      let back : l.input.pending s1.reader ≡ frame msg_handshake_ack g.ack =
        hear_down-pending l j t tr sj h config n w.peer.conn q.conn (frame msg_handshake_ack g.ack)
          s replied down in
      let (s2, k, still2, rest2) =
        connect-greeted l j g.body g.ack (h.on_handshake (hello "protocol-client")) w.client s1
          g.encoded g.fits g.decoded g.success g.ack_fits o
          (in_time_down l j t tr sj h config n w.client.request_timeout s1 msg_handshake_ack g.ack
            back)
          back in
      let c = record w.client {
        session_id = some (h.on_handshake (hello "protocol-client")).session_id;
        connected = true;
        stream = some s2;
      } in
      (
        record { client = c; peer = q },
        meet_steps now s (record s { writer = u }) w q (ok tt) (ok tt) (ok "protocol-client") c
            (rw (g.encoded) e) f k,
        refl,
        record {
          socket = s2;
          on_it = refl;
          client_open = still2;
          server_open = still;
          up_empty = rest;
          down_empty = rest2;
        },
      )

  -- A whole connection is transparent. Over a network that carries what is sent, from two fresh
  -- sockets, with a handshake that each side reads back as the other one wrote it, that the
  -- handler accepts and the limiter passes, and then any list of requests, each with the response
  -- to it: the request's body is within the limits and is decoded by the server to a valid
  -- request, what the handler gives to that at its time encodes within the limit, and the client
  -- decodes this to the response. Then connecting succeeds and gives the client the session that
  -- the handler names for "protocol-client"; the server takes the client under that name; every
  -- call gives its response, in order; and at the end both ends are open with nothing on the way.
  pub meet-talk_all :
      (now : ℕ) (s : Socket l) (w : Pair l j t tr sj h config n) (g : Welcome now w.peer.conn)
      (xs : List (Asked j.Value × ServiceResponse j.Value))
      → l.output.IsOpen s.writer
      → t.IsOpen w.peer.conn.writer
      → tr.pending w.peer.reader ≡ []
      → l.input.pending s.reader ≡ []
      → All (λ x. Agreed l j t tr sj h config n x.0 x.1) xs
      → (w1 : Pair l j t tr sj h config n) × (w2 : Pair l j t tr sj h config n) × (meet l j t tr sj
            h config n now s w
          ≡ (ok tt, (ok "protocol-client", w1)))
        × (w1.client.session_id ≡ some (h.on_handshake (hello "protocol-client")).session_id)
        × (talk_all l j t tr sj h config n "protocol-client" (map (λ x. x.0) xs) w1
            ≡ (map (λ x. ok x.1) xs, w2))
        × Quiet l j t tr sj h config n w2
  meet-talk_all now s w g xs o so up down agreed =
      let (w1, met, session, q) = meet-Quiet now s w g o so up down in
      let (w2, talked, q2) =
        talk_all-Quiet l j t tr sj h config n "protocol-client" xs w1 agreed q in
      (w1, w2, met, session, talked, q2)
