-- ===== src/Client/Reliable/Call.antt =====
-- src/client.rs: `ReliableUdsClient::call`.
use xprotocol.Prelude.{
  ℕ, String, Bool, true, false, Option, none, some, List, ◌==◌, decimal, str_append, if◌then◌else◌,
}
use xprotocol.Error.{
  ProtocolError, connection_closed, timeout, encoding, ok, err, IoResult, io_ok, io_err,
}
use xprotocol.Wire.{msg_error, msg_response}
use xprotocol.Client.Stats.{record_request}
use xprotocol.Client.Reliable.{
  ReliableUdsClient, disconnected, Run, returned, waits, Dial, Exchange, not_encoded, not_written,
  not_read, no_reply, replied, is_connected, connect, unlocked, drop_stream,
}

note : ℕ → Bool → ReliableUdsClient → ReliableUdsClient
note now success c = record c { stats = record_request now success c.stats }

-- serde_json, as far as `call` uses it: the error value's text, and the response
module _ {Response : Type 0} (error_message : List ℕ → IoResult String)
    (decode_response : List ℕ → IoResult Response) where
  refuse_reply : ProtocolError → ℕ → ReliableUdsClient → Run Response
  unfolding note drop_stream
  refuse_reply e now c = drop_stream e (note now false c)

  on_error_reply : ℕ → IoResult String → ReliableUdsClient → Run Response
  unfolding refuse_reply unlocked
  on_error_reply now (io_ok message) c = refuse_reply (ProtocolError.server message) now c
  on_error_reply now (io_err e) c = unlocked (err (encoding e)) c

  on_response : ℕ → IoResult Response → ReliableUdsClient → Run Response
  unfolding note unlocked
  on_response now (io_ok r) c =
      unlocked (ok r) (record (note now true c) { last_request_at = some now })
  on_response now (io_err e) c = unlocked (err (encoding e)) c

  -- on the stream, with both mutexes held: what `call` makes of the exchange, which Exchanging.antt
  -- computes
  on_stream : ℕ → Exchange → ReliableUdsClient → Run Response
  unfolding on_error_reply on_response
  on_stream now (not_encoded e) c = unlocked (err (encoding e)) c
  on_stream now (not_written e) c = unlocked (err e) c
  on_stream now (not_read e) c = unlocked (err e) c
  on_stream now no_reply c = unlocked (err timeout) (note now false c)
  on_stream now (replied msg_type payload) c =
      if msg_type == msg_error
      then on_error_reply now (error_message payload) c
      else if msg_type == msg_response
      then on_response now (decode_response payload) c
      else refuse_reply
          (ProtocolError.protocol (str_append "Unexpected message type: " (decimal msg_type))) now c

  with_stream : ℕ → Exchange → Option ℕ → ReliableUdsClient → Run Response
  unfolding on_stream
  with_stream now x none c = unlocked (err connection_closed) (record c { state = disconnected })
  with_stream now x (some s) c = on_stream now x c

  locked_call : ℕ → Exchange → ReliableUdsClient → Run Response
  unfolding with_stream
  locked_call now x c =
      if c.lock_held
      then waits c
      else if c.stream_held
      then waits (record c { lock_held = true })
      else with_stream now x c.stream (record c { lock_held = true; stream_held = true })

  after_connect : ℕ → Exchange → Run (Unit {0}) → Run Response
  unfolding locked_call
  after_connect now x (returned (ok _) c) = locked_call now x c
  after_connect now x (returned (err e) c) = returned (err e) c
  after_connect now x (waits c) = waits c

  -- A call that starts at a time; `d` is what becomes of dialling, where that is needed.
  unfoldable pub call : ℕ → Dial → Exchange → ReliableUdsClient → Run Response
  unfolding after_connect
  call now d x c =
      if is_connected c then locked_call now x c else after_connect now x (connect now d c)
