-- ===== src/Tcp/Calling.antt =====
-- src/tcp.rs: `TcpClient::call`, on a stream that the client has.
use mathlib.Core.List.{append-nil}
use xprotocol.Prelude.{
  ℕ, ◌+◌, ◌≤◌, ◌<◌, subst, arith, ◌≡◌, refl, ap, sym, ◌∙◌, String, Bool, true, not, Option, some,
  List, [], ◌++◌, length, if◌then◌else◌,
}
use xprotocol.Error.{connection_failed, err, ok, IoResult, io_ok}
use xprotocol.Protocol.{ServiceRequest, ServiceResponse}
use xprotocol.Wire.{read_message, max_message_size, msg_handshake, msg_request, msg_response}
use xprotocol.Wire.Frames.{frame}
use xprotocol.Wire.Decoding.{read_message-frame}
use xprotocol.Server.Connection.{Json, Handler}
use xprotocol.Client.Uds.{Link, Socket, ClientJson, put_json, put_encoded, get_message, set_reader}
use xprotocol.Client.Uds.Sockets.{put-frame}
use xprotocol.Tcp.{
  TcpClient, hello, connect, exchange, settle, on_stream, connected_call, call, turn,
}
use xprotocol.Tcp.Serving.{turn-handshake}

module _ {l : Link} where
  get_message-frame :
      (msg_type : ℕ) (payload rest : List ℕ) (s : Socket l)
      → 2 + length payload ≤ max_message_size
      → l.input.pending s.reader ≡ frame msg_type payload ++ rest
      → (r : l.input.R) × (get_message s ≡ (ok (msg_type, payload), record s { reader = r }))
        × (l.input.pending r ≡ rest)
  unfolding get_message set_reader
  get_message-frame msg_type payload rest s fits h =
      let (r, e, p) = read_message-frame l.input msg_type payload rest s.reader fits h in
      (r, rw e refl, p)

module _ (l : Link) (j : ClientJson) where
  open j use {Value}

  -- both messages out, both messages in
  exchange-frames :
      (service : String) (request : ServiceRequest Value) (hi body ignored answer rest : List ℕ)
      (first : ℕ) (s : Socket l)
      → j.hello_body (hello service) ≡ io_ok hi
      → j.request_body request ≡ io_ok body
      → 2 + length hi ≤ max_message_size
      → 2 + length body ≤ max_message_size
      → 2 + length ignored ≤ max_message_size
      → 2 + length answer ≤ max_message_size
      → l.output.IsOpen s.writer
      → l.input.pending s.reader ≡ frame first ignored ++ (frame msg_response answer ++ rest)
      → (s' : Socket l) × (exchange l j service request s ≡ (ok (msg_response, answer), s'))
        × (l.output.sent s'.writer
            ≡ (l.output.sent s.writer ++ frame msg_handshake hi) ++ frame msg_request body)
        × (l.input.pending s'.reader ≡ rest)
  unfolding exchange put_json put_encoded
  exchange-frames service request hi body ignored answer rest first s hi_enc body_enc hi_fits
        body_fits ignored_fits answer_fits o arrives =
      let (w1, e1, sent1, o1) = put-frame {l = l} msg_handshake hi s o hi_fits in
      let s1 : Socket l = record s { writer = w1 } in
      let (r1, f1, p1) =
        get_message-frame {l = l} first ignored (frame msg_response answer ++ rest) s1 ignored_fits
          arrives in
      let s2 : Socket l = record s1 { reader = r1 } in
      let (w2, e2, sent2, _) = put-frame {l = l} msg_request body s2 o1 body_fits in
      let s3 : Socket l = record s2 { writer = w2 } in
      let (r2, f2, p2) = get_message-frame {l = l} msg_response answer rest s3 answer_fits p1 in
      (
        record s3 { reader = r2 },
        rw hi_enc (rw e1 (rw f1 (rw body_enc (rw e2 f2)))),
        sent2 ∙ ap (λ b. b ++ frame msg_request body) sent1,
        p2,
      )

  call-connected :
      (one two : IoResult (Socket l)) (service : String) (request : ServiceRequest Value)
      (c : TcpClient l) (s : Socket l)
      → c.connected ≡ true
      → c.stream ≡ some s
      → call l j one two service request c ≡ settle l j (exchange l j service request s) c
  unfolding call connected_call on_stream
  call-connected one two service request c s up st =
      ap
        (λ (b : Bool).
          connected_call l j service request (if not b then connect l j one two c else (ok tt, c)))
        up
      ∙ ap (λ (o : Option (Socket l)). on_stream l j service request o c) st

  -- A call on an open stream on which a first message of any type and then a response wait, both
  -- within the limit: the client sends its handshake and the request, takes both messages, and
  -- returns the response that the second one decodes to. What the first one is makes no difference.
  pub call_takes_second :
      (one two : IoResult (Socket l)) (service : String) (request : ServiceRequest Value)
      (response : ServiceResponse Value) (hi body ignored answer rest : List ℕ) (first : ℕ)
      (c : TcpClient l) (s : Socket l)
      → c.connected ≡ true
      → c.stream ≡ some s
      → j.hello_body (hello service) ≡ io_ok hi
      → j.request_body request ≡ io_ok body
      → j.read_response answer ≡ io_ok response
      → 2 + length hi ≤ max_message_size
      → 2 + length body ≤ max_message_size
      → 2 + length ignored ≤ max_message_size
      → 2 + length answer ≤ max_message_size
      → l.output.IsOpen s.writer
      → l.input.pending s.reader ≡ frame first ignored ++ (frame msg_response answer ++ rest)
      → (s' : Socket l) × (call l j one two service request c
          ≡ (ok response, record c { stream = some s' }))
        × (l.output.sent s'.writer
            ≡ (l.output.sent s.writer ++ frame msg_handshake hi) ++ frame msg_request body)
        × (l.input.pending s'.reader ≡ rest)
  unfolding settle
  call_takes_second one two service request response hi body ignored answer rest first c s up st
        hi_enc body_enc dec hi_fits body_fits ignored_fits answer_fits o arrives =
      let (s', e, sent, p) =
        exchange-frames service request hi body ignored answer rest first s hi_enc body_enc hi_fits
          body_fits ignored_fits answer_fits o arrives in
      (s', call-connected one two service request c s up st ∙ rw e (rw dec refl), sent, p)

  -- a stream that delivers nothing more
  get_message-nothing :
      (s : Socket l)
      → l.input.pending s.reader ≡ []
      → (e : String) × (r : l.input.R) × (get_message s
          ≡ (err (connection_failed e), record s { reader = r }))
  unfolding get_message set_reader read_message
  get_message-nothing s nothing =
      let (e, r, h) =
        l.input.read_exact_short 4 s.reader
          (subst (λ xs. length xs < 4) (sym nothing) (omega arith)) in
      (e, r, rw h refl)

  call_unanswered :
      (one two : IoResult (Socket l)) (service : String) (request : ServiceRequest Value)
      (hi : List ℕ) (c : TcpClient l) (s : Socket l)
      → c.connected ≡ true
      → c.stream ≡ some s
      → j.hello_body (hello service) ≡ io_ok hi
      → 2 + length hi ≤ max_message_size
      → l.output.IsOpen s.writer
      → l.input.pending s.reader ≡ []
      → (e : String) × (s' : Socket l) × (call l j one two service request c
          ≡ (err (connection_failed e), record c { stream = some s' }))
        × (l.output.sent s'.writer ≡ l.output.sent s.writer ++ frame msg_handshake hi)
  unfolding exchange put_json put_encoded settle
  call_unanswered one two service request hi c s up st enc fits o nothing =
      let (w, f, sent, _) = put-frame {l = l} msg_handshake hi s o fits in
      let (e, r, g) = get_message-nothing (record s { writer = w }) nothing in
      (
        e,
        record s { reader = r; writer = w },
        call-connected one two service request c s up st ∙ rw enc (rw f (rw g refl)),
        sent,
      )

module _ (l k : Link) (j : ClientJson) (sj : Json) (h : Handler sj.Value) where
  -- A second call on a stream is never answered. The client has an open stream whose server is in
  -- its loop; nothing is on the way to the client, and the server has the handshake that the call
  -- sends first, and nothing else, to read. Then the server's turn takes that handshake and writes
  -- nothing, and has nothing more to read; and the call, which gets nothing to read, returns only
  -- where its stream ends, with an error and with no more sent than that handshake: never the
  -- request.
  pub second_call_unanswered :
      (one two : IoResult (Socket l)) (service : String) (request : ServiceRequest j.Value)
      (hi : List ℕ) (now : ℕ) (c : TcpClient l) (s : Socket l) (peer : Socket k)
      → c.connected ≡ true
      → c.stream ≡ some s
      → j.hello_body (hello service) ≡ io_ok hi
      → 2 + length hi ≤ max_message_size
      → l.output.IsOpen s.writer
      → l.input.pending s.reader ≡ []
      → k.input.pending peer.reader ≡ frame msg_handshake hi
      → ((e : String) × (s' : Socket l) × (call l j one two service request c
            ≡ (err (connection_failed e), record c { stream = some s' }))
          × (l.output.sent s'.writer ≡ l.output.sent s.writer ++ frame msg_handshake hi))
        × ((r : k.input.R) × (turn k sj h now peer ≡ (ok true, record peer { reader = r }))
            × (k.input.pending r ≡ []))
  second_call_unanswered one two service request hi now c s peer up st enc fits o nothing arrives =
      (
        call_unanswered l j one two service request hi c s up st enc fits o nothing,
        turn-handshake k sj h now hi [] peer fits
            (arrives ∙ sym (append-nil (frame msg_handshake hi))),
      )
