-- ===== src/Client/Uds/Streamed.antt =====
-- src/client.rs and src/server.rs: a streaming call to the server of this library.
pub mod Halves
use mathlib.Core.List.{append-nil, append_assoc}
use xprotocol.Prelude.{
  ℕ, zero, suc, ◌+◌, ◌≤◌, ◌<◌, ◌≡◌, refl, ap, sym, ◌∙◌, subst, String, Bool, true, false, Option,
  none, some, List, [], ◌∷◌, ◌++◌, length, ltb-false, arith, if◌then◌else◌,
}
use xprotocol.Error.{encoding, Result, ok, err, IoResult, io_ok, io_err, from_json}
use xprotocol.Action.{continue, pure}
use xprotocol.Protocol.{ServiceRequest, ServiceResponse}
use xprotocol.Streaming.{StreamMode, StreamMessage, result, as_str}
use xprotocol.Wire.{
  AsyncWrite, AsyncRead, max_message_size, msg_stream_request, msg_stream_start, msg_stream_end,
  read_message,
}
use xprotocol.Wire.Frames.{frame, write_message-frame}
use xprotocol.Wire.Decoding.{read_message-frame}
use xprotocol.Server.{ServerConfig}
use xprotocol.Server.Connection.{
  Json, Handler, Connection, received, stream, going_on, serve_message, or_result, mode_named,
}
use xprotocol.Client.Uds.{
  Link, Socket, ClientJson, UdsClient, Dialled, put_json, in_mode, turn, at_end, take_turn, collect,
  do_call_streaming, call_streaming, with_stream, start, on_stream, settled,
}
use xprotocol.Client.Uds.Sockets.{put-frame, await_message-frame}
use xprotocol.Client.Uds.Remote.{server_turn}
use xprotocol.Client.Uds.Network.{
  Network, Asked, Peer, Pair, kept, peer_turn, hear_up, hear_down, talk_stream,
}
use xprotocol.Client.Uds.Conversation.{hear_up-pending, hear_down-pending, frame_positive}
use xprotocol.Client.Uds.Streamed.Halves.{
  start_of, end_of, stream_frames, serve_message_stream, call_streaming_undecoded,
}

module _ (l : Link) (j : ClientJson) (t : AsyncWrite) (tr : AsyncRead) (sj : Json)
    (h : Handler sj.Value) (config : ServerConfig) (n : Network l tr) where
  -- What client and server agree on for a stream: the request's body, and those of the start and of
  -- the end, which fit.
  pub record Streams (mode : StreamMode) (a : Asked j.Value) (finish : List ℕ) : Type 0 where
    pub body : List ℕ
    pub begin : List ℕ
    pub request : ServiceRequest sj.Value
    pub enabled : config.enable_streaming ≡ true
    pub encoded : j.request_body (in_mode l j mode a.request) ≡ io_ok body
    pub fits : 2 + length body ≤ max_message_size
    pub small : length body ≤ config.max_request_size
    pub read : sj.read_request body ≡ io_ok request
    pub started : start_of t sj h config request ≡ io_ok begin
    pub begin_fits : 2 + length begin ≤ max_message_size
    pub ended : end_of t sj h config (h.handle a.now request) ≡ io_ok finish
    pub finish_fits : 2 + length finish ≤ max_message_size

  turn_of :
      (client_id : String) (now latency : ℕ) (payload : List ℕ) (p : Peer l j t tr sj h config n)
      (r : tr.R) (d : Connection t.W)
      → read_message tr p.reader ≡ (ok (msg_stream_request, payload), r)
      → serve_message t sj h config client_id
          (received now latency msg_stream_request payload)
          p.conn
        ≡ (ok true, d)
      → peer_turn l j t tr sj h config n client_id now latency p
        ≡ (ok true, record { reader = r; conn = d })
  unfolding peer_turn kept server_turn
  turn_of client_id now latency payload p r d e f = rw e (rw f refl)

  stream_steps :
      (client_id : String) (fuel : ℕ) (mode : StreamMode) (a : Asked j.Value) (s s' : Socket l)
      (w : Pair l j t tr sj h config n) (p : Peer l j t tr sj h config n) (x : Result (Unit {0}))
      (y : Result Bool) (r : Result (Option (List (StreamMessage j.Value)))) (c : UdsClient l)
      → put_json {l = l} msg_stream_request (j.request_body (in_mode l j mode a.request)) s
        ≡ (x, s')
      → peer_turn l j t tr sj h config n client_id a.now a.latency
          (hear_up l j t tr sj h config n (l.output.sent s.writer) (l.output.sent s'.writer) w.peer)
        ≡ (y, p)
      → call_streaming l j fuel Dialled.too_slow mode a.request (record w.client {
        stream = some (hear_down l j t tr sj h config n w.peer.conn p.conn s);
      })
        ≡ (r, c)
      → talk_stream l j t tr sj h config n client_id fuel mode a s w
        ≡ (r, record { client = c; peer = p })
  unfolding talk_stream
  stream_steps client_id fuel mode a s s' w p x y r c e1 e2 e3 = rw e1 (rw e2 (rw e3 refl))

  -- A streaming call to this server gives nothing. Over a network that carries what is sent, on an
  -- open connection with nothing on the way, where the server has streaming enabled and takes the
  -- request, and the bodies fit: where the client cannot decode the body of the end that the server
  -- sends (it has no field `mode`, which the client's type requires), the call fails with an
  -- encoding error, whatever the handler answered, and the client is left without its stream, while
  -- the server's end stays open with nothing on its way.
  pub talk_stream_undecoded :
      (client_id : String) (k : ℕ) (mode : StreamMode) (a : Asked j.Value) (s : Socket l)
      (w : Pair l j t tr sj h config n) (finish : List ℕ) (e : String)
      → Streams mode a finish
      → j.read_stream_response finish ≡ io_err e
      → l.output.IsOpen s.writer
      → t.IsOpen w.peer.conn.writer
      → tr.pending w.peer.reader ≡ []
      → l.input.pending s.reader ≡ []
      → (w' : Pair l j t tr sj h config n) × (talk_stream l j t tr sj h config n client_id
            (suc (suc k))
            mode
            a
            s
            w
          ≡ (err (encoding e), w'))
        × (w'.client ≡ record w.client { connected = false; stream = none })
        × t.IsOpen w'.peer.conn.writer
        × (tr.pending w'.peer.reader ≡ [])
  unfolding hear_up hear_down put_json
  talk_stream_undecoded client_id k mode a s w finish e g undecoded o so up down =
      let (u, sends, sent, _) = put-frame {l = l} msg_stream_request g.body s o g.fits in
      let p = hear_up l j t tr sj h config n (l.output.sent s.writer) (l.output.sent u) w.peer in
      let arrived : tr.pending p.reader ≡ frame msg_stream_request g.body =
        hear_up-pending l j t tr sj h config n (l.output.sent s.writer) (l.output.sent u)
          (frame msg_stream_request g.body) w.peer sent up in
      let (r, got, rest) =
        read_message-frame tr msg_stream_request g.body [] p.reader g.fits
          (arrived ∙ sym (append-nil (frame msg_stream_request g.body))) in
      let (d, streamed, replied, still) =
        stream_frames t sj h config a.now g.request g.begin finish p.conn g.started g.begin_fits
          g.ended g.finish_fits so in
      let turned = turn_of client_id a.now a.latency g.body p r d got (
        serve_message_stream t sj h config client_id a.now a.latency g.body g.request p.conn d
          g.small g.enabled g.read streamed) in
      let s1 = hear_down l j t tr sj h config n w.peer.conn d s in
      let back =
        hear_down-pending l j t tr sj h config n w.peer.conn d
          (frame msg_stream_start g.begin ++ frame msg_stream_end finish) s replied down in
      let c = record w.client { connected = false; stream = none } in
      (
        record { client = c; peer = record { reader = r; conn = d } },
        stream_steps client_id (suc (suc k)) mode a s (record s { writer = u }) w
            (record { reader = r; conn = d }) (ok tt) (ok true) (err (encoding e)) c
            (rw (g.encoded) sends) turned
            (call_streaming_undecoded l j k mode g.body g.begin finish e a.request w.client s1
              (n.prompt) g.encoded g.fits g.begin_fits g.finish_fits undecoded o back),
        refl,
        still,
        rest,
      )
