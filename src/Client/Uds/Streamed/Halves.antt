-- ===== src/Client/Uds/Streamed/Halves.antt =====
-- src/client.rs and src/server.rs: the two halves of a streaming call.
use mathlib.Core.List.{append-nil, append_assoc}
use xprotocol.Prelude.{
  ℕ, suc, ◌+◌, ◌≤◌, ◌<◌, ◌≡◌, refl, ap, sym, ◌∙◌, subst, String, true, false, none, some, List, [],
  ◌++◌, length, ltb-false, arith, if◌then◌else◌,
}
use xprotocol.Error.{encoding, ok, err, IoResult, io_ok, io_err, from_json}
use xprotocol.Action.{pure}
use xprotocol.Protocol.{ServiceRequest, ServiceResponse}
use xprotocol.Streaming.{StreamMode, as_str}
use xprotocol.Wire.{
  AsyncWrite, max_message_size, msg_stream_request, msg_stream_start, msg_stream_end,
}
use xprotocol.Wire.Frames.{frame, write_message-frame}
use xprotocol.Server.{ServerConfig}
use xprotocol.Server.Connection.{
  Json, Handler, Connection, received, stream, going_on, serve_message, or_result, mode_named,
}
use xprotocol.Client.Uds.{
  Link, Socket, ClientJson, UdsClient, Dialled, in_mode, turn, at_end, take_turn, collect,
  do_call_streaming, call_streaming, with_stream, start, on_stream, settled,
}
use xprotocol.Client.Uds.Sockets.{put-frame, await_message-frame}
use xprotocol.Client.Uds.Conversation.{frame_positive}

module _ (t : AsyncWrite) (j : Json) (h : Handler j.Value) (config : ServerConfig) where
  -- the body of the start, for a request
  abbrev pub start_of : ServiceRequest j.Value → IoResult (List ℕ)
  start_of request =
      j.start_body request.request_id
        (as_str (or_result t j h config (mode_named t j h config (j.stream_mode request.payload))))

  -- the body of the end, for a response
  abbrev pub end_of : ServiceResponse j.Value → IoResult (List ℕ)
  end_of response = j.end_body response.request_id response.status response.payload

  pub stream_frames :
      (now : ℕ) (request : ServiceRequest j.Value) (start finish : List ℕ) (c : Connection t.W)
      → start_of request ≡ io_ok start
      → 2 + length start ≤ max_message_size
      → end_of (h.handle now request) ≡ io_ok finish
      → 2 + length finish ≤ max_message_size
      → t.IsOpen c.writer
      → (d : Connection t.W) × (stream t j h config now (ok request) c ≡ (ok tt, d))
        × (t.sent d.writer
            ≡ t.sent c.writer ++ (frame msg_stream_start start ++ frame msg_stream_end finish))
        × t.IsOpen d.writer
  unfolding stream
  stream_frames now request start finish c started start_fits ended end_fits o =
      let (w1, e1, s1, o1) = write_message-frame t msg_stream_start start c.writer o start_fits in
      let (w2, e2, s2, o2) = write_message-frame t msg_stream_end finish w1 o1 end_fits in
      (
        record c { writer = w2 },
        rw started (rw e1 (rw ended (rw e2 refl))),
        s2
            ∙ ap (λ x. x ++ frame msg_stream_end finish) s1
            ∙ append_assoc (t.sent c.writer) (frame msg_stream_start start)
                (frame msg_stream_end finish),
        o2,
      )

  -- a request for a stream, where streaming is enabled
  pub serve_message_stream :
      (client_id : String) (now latency : ℕ) (payload : List ℕ) (request : ServiceRequest j.Value)
      (c d : Connection t.W)
      → length payload ≤ config.max_request_size
      → config.enable_streaming ≡ true
      → j.read_request payload ≡ io_ok request
      → stream t j h config now (ok request) c ≡ (ok tt, d)
      → serve_message t j h config client_id (received now latency msg_stream_request payload) c
        ≡ (ok true, d)
  unfolding serve_message
  serve_message_stream client_id now latency payload request c d small enabled read e =
      rw (ltb-false config.max_request_size (length payload) small) (
        subst
          (λ b.
            (if b
                then going_on t j h config
                    (stream t j h config now (from_json (j.read_request payload)))
                else pure true)
              c
            ≡ (ok true, d))
          (sym enabled) (rw read (rw e refl)))

module _ (l : Link) (j : ClientJson) where
  -- A client that finds a start and an end that it cannot decode has no result, and drops its stream.
  pub call_streaming_undecoded :
      (n : ℕ) (mode : StreamMode) (body begin finish : List ℕ) (e : String)
      (request : ServiceRequest j.Value) (c : UdsClient l) (s : Socket l)
      → ((limit : ℕ) (r : l.input.R) → 0 < length (l.input.pending r) → l.in_time limit r ≡ true)
      → j.request_body (in_mode l j mode request) ≡ io_ok body
      → 2 + length body ≤ max_message_size
      → 2 + length begin ≤ max_message_size
      → 2 + length finish ≤ max_message_size
      → j.read_stream_response finish ≡ io_err e
      → l.output.IsOpen s.writer
      → l.input.pending s.reader ≡ frame msg_stream_start begin ++ frame msg_stream_end finish
      → call_streaming l j
          (suc (suc n))
          Dialled.too_slow
          mode
          request
          (record c { stream = some s })
        ≡ (err (encoding e), record c { connected = false; stream = none })
  unfolding call_streaming with_stream do_call_streaming start on_stream settled collect turn at_end
      take_turn
  call_streaming_undecoded n mode body begin finish e request c s prompt encoded fits begin_fits
        finish_fits undecoded o arrives =
      let (w, sent, _, _) = put-frame {l = l} msg_stream_request body s o fits in
      let s1 : Socket l = record s { writer = w } in
      let waiting : 0 < length (l.input.pending s.reader) =
        subst (λ x. 0 < length x) (sym arrives) (omega arith) in
      let (r1, f1, rest) =
        await_message-frame {l = l} c.request_timeout msg_stream_start begin
          (frame msg_stream_end finish) s1 begin_fits (prompt c.request_timeout s.reader waiting)
          arrives in
      let waiting1 : 0 < length (l.input.pending r1) =
        subst (λ x. 0 < length x) (sym rest) (frame_positive msg_stream_end finish) in
      let s2 : Socket l = record { reader = r1; writer = w } in
      let (r2, f2, _) =
        await_message-frame {l = l} c.request_timeout msg_stream_end finish [] s2 finish_fits
          (prompt c.request_timeout r1 waiting1)
          (rest ∙ sym (append-nil (frame msg_stream_end finish))) in
      rw encoded (rw sent (rw f1 (rw f2 (rw undecoded refl))))
