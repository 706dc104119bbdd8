-- ===== src/Client/Reliable/Calls.antt =====
-- src/client.rs: the ways in which `ReliableUdsClient::call` returns.
use xprotocol.Prelude.{ℕ, String, true, false, some, List, ◌≡◌, arith}
use xprotocol.Error.{ProtocolError, connection_failed, timeout, ok, err, IoResult, io_ok}
use xprotocol.Wire.{msg_response}
use xprotocol.Client.Stats.{record_request, record_reconnect}
use xprotocol.Client.Reliable.{
  ReliableUdsClient, connected, disconnected, failed, Run, returned, Dial, dialled, refused,
  too_slow, Exchange, not_encoded, not_written, not_read, no_reply, replied, is_connected, connect,
}
use xprotocol.Client.Reliable.Call.{call}

-- A client that no task uses, with the stream that it has.
pub record Idle (socket : ℕ) (c : ReliableUdsClient) : Type 0 where
  pub stream : c.stream ≡ some socket
  pub lock : c.lock_held ≡ false
  pub guard : c.stream_held ≡ false

module _ {Response : Type 0} (error_message : List ℕ → IoResult String)
    (decode_response : List ℕ → IoResult Response) where
  abbrev pub issue : ℕ → Dial → Exchange → ReliableUdsClient → Run Response
  issue = call error_message decode_response

  -- A response that can be decoded is returned; the request is recorded as a success at its time,
  -- and nothing else of the client changes.
  pub call_answered :
      (now socket : ℕ) (d : Dial) (payload : List ℕ) (r : Response) (c : ReliableUdsClient)
      → c.state ≡ connected
      → Idle socket c
      → decode_response payload ≡ io_ok r
      → issue now d (replied msg_response payload) c
        ≡ returned
            (ok r)
            (record c { stats = record_request now true c.stats; last_request_at = some now })
  unfolding call is_connected
  call_answered now socket d payload r c s v h = ground arith

  -- the exchanges that fail in the socket
  abbrev pub SocketFails : Exchange → ProtocolError → Type 0
  SocketFails (not_written e) f = e ≡ f
  SocketFails (not_read e) f = e ≡ f
  SocketFails x f = ⊥

  -- When writing or reading fails, `call` returns the error and leaves the client exactly as it
  -- was: still connected, with the same broken stream, and with nothing recorded.
  pub call_keeps_broken_stream :
      (now socket : ℕ) (d : Dial) (x : Exchange) (e : ProtocolError) (c : ReliableUdsClient)
      → c.state ≡ connected
      → Idle socket c
      → SocketFails x e
      → issue now d x c ≡ returned (err e) c
  unfolding call is_connected
  call_keeps_broken_stream now socket d (not_written f) e c s v h = ground arith
  call_keeps_broken_stream now socket d (not_read f) e c s v h = ground arith
  call_keeps_broken_stream now socket d (not_encoded f) e c s v h = elim h [ ]
  call_keeps_broken_stream now socket d no_reply e c s v h = elim h [ ]
  call_keeps_broken_stream now socket d (replied t p) e c s v h = elim h [ ]

  -- A client that has not connected yet dials first: where dialling fails, its error is returned,
  -- the state is `Failed`, and no request is recorded; where it succeeds, the call goes on as on a
  -- client that was connected all along.
  pub call_dials :
      (now : ℕ) (x : Exchange) (c : ReliableUdsClient) (e : String) (socket : ℕ)
      → c.state ≡ disconnected
      → c.lock_held ≡ false
      → c.stream_held ≡ false
      → (issue now (refused e) x c
          ≡ returned
              (err (connection_failed e))
              (record c { state = failed; stats = record_reconnect now false c.stats }))
        × (issue now too_slow x c
            ≡ returned
                (err timeout)
                (record c { state = failed; stats = record_reconnect now false c.stats }))
        × (issue now (dialled socket) x c
            ≡ issue now (dialled socket) x (record c {
              state = connected;
              stream = some socket;
              connected_at = some now;
              stats = record_reconnect now true c.stats;
            }))
  unfolding call is_connected connect
  call_dials now x c e socket s l g = ground arith
