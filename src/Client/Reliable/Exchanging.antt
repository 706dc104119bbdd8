-- ===== src/Client/Reliable/Exchanging.antt =====
-- src/client.rs: what `ReliableUdsClient::call` does on its stream, over the wire, and a client whose
-- peer has gone.
use xprotocol.Prelude.{
  ℕ, suc, ◌≡◌, refl, String, true, false, Option, none, some, List, [], ◌∷◌, All, length, ap, arith,
  if◌then◌else◌,
}
use xprotocol.Error.{
  ProtocolError, connection_failed, Result, ok, err, is_ok, IoResult, io_ok, io_err, encoding,
}
use xprotocol.Wire.{msg_request}
use xprotocol.Client.Uds.{Link, Socket, put, set_writer, get_message, set_reader}
use xprotocol.Client.Reliable.{
  ReliableUdsClient, connected, Run, returned, waits, Dial, Exchange, not_encoded, not_written,
  not_read, no_reply, replied, is_connected,
}
use xprotocol.Client.Reliable.Call.{call}
use xprotocol.Client.Reliable.Calls.{Idle, SocketFails, call_keeps_broken_stream}
use xprotocol.Wire.Ended.{Ending, read_message-AtEnd}

module _ (l : Link) where
  unfoldable pub reply_of : Result (ℕ × List ℕ) × Socket l → Exchange × Socket l
  reply_of (ok (msg_type, payload), s) = (replied msg_type payload, s)
  reply_of (err e, s) = (not_read e, s)

  -- once the request is written: `timeout(self.config.request_timeout, read_message(..)).await`
  unfoldable pub await_reply : ℕ → Result (Unit {0}) × Socket l → Exchange × Socket l
  unfolding reply_of get_message
  await_reply limit (err e, s) = (not_written e, s)
  await_reply limit (ok _, s) =
      if l.in_time limit s.reader then reply_of (get_message s) else (no_reply, s)

  -- from `serde_json::to_vec(&request)`, whose result is given, to the reply
  unfoldable pub exchange_on : ℕ → IoResult (List ℕ) → Socket l → Exchange × Socket l
  unfolding await_reply put
  exchange_on limit (io_err e) s = (not_encoded e, s)
  exchange_on limit (io_ok body) s = await_reply limit (put msg_request body s)

-- a call: when it starts, what dialling would come to, and the encoded request
pub record Ask : Type 0 where
  pub now : ℕ
  pub dial : Dial
  pub body : IoResult (List ℕ)

module _ {Response : Type 0} (error_message : List ℕ → IoResult String)
    (decode_response : List ℕ → IoResult Response) (l : Link) where
  -- a call of a client whose stream is the socket
  abbrev pub call_over : Ask → Socket l → ReliableUdsClient → Run Response × Socket l
  call_over a s c =
      let (x, s') = exchange_on l c.config.request_timeout a.body s in
      (call error_message decode_response a.now a.dial x c, s')

  abbrev pub go_on :
      (Socket l → ReliableUdsClient → Option (List (Result Response) × ReliableUdsClient))
      → Run Response × Socket l
      → Option (List (Result Response) × ReliableUdsClient)
  go_on more (waits c, s) = none
  go_on more (returned r c, s) = elim (more s c) [ none ↦ none | some x ↦ some (r ∷ x.0, x.1) ]

  -- one call after another; `none`: a call waits for ever
  abbrev pub calls_over :
      List Ask → Socket l → ReliableUdsClient → Option (List (Result Response) × ReliableUdsClient)
  calls_over [] s c = some ([], c)
  calls_over (a ∷ asks) s c = go_on (calls_over asks) (call_over a s c)

  abbrev Lost : (x : Ending l.input) → Ask → Exchange × Socket l → ReliableUdsClient → Type 0
  Lost x a y c =
      (r : Result Response) × (call error_message decode_response a.now a.dial y.0 c ≡ returned r c)
      × (is_ok r ≡ false)
      × x.AtEnd y.1.reader

  SocketFails-Lost :
      (x : Ending l.input) (socket : ℕ) (a : Ask) (y : Exchange) (s : Socket l) (e : ProtocolError)
      (c : ReliableUdsClient)
      → c.state ≡ connected
      → Idle socket c
      → SocketFails error_message decode_response y e
      → x.AtEnd s.reader
      → Lost x a (y, s) c
  unfolding is_ok
  SocketFails-Lost x socket a y s e c up idle f at_end = (
    err e,
    call_keeps_broken_stream error_message decode_response a.now socket a.dial y e c up idle f,
    refl,
    at_end,
  )

  not_encoded-Lost :
      (x : Ending l.input) (socket : ℕ) (a : Ask) (e : String) (s : Socket l)
      (c : ReliableUdsClient)
      → c.state ≡ connected
      → Idle socket c
      → x.AtEnd s.reader
      → Lost x a (not_encoded e, s) c
  unfolding call is_connected is_ok
  not_encoded-Lost x socket a e s c up idle at_end = (err (encoding e), ground arith, refl, at_end)

  await_reply-Lost :
      (x : Ending l.input) (socket limit : ℕ) (a : Ask) (y : Result (Unit {0}) × Socket l)
      (c : ReliableUdsClient)
      → c.state ≡ connected
      → Idle socket c
      → ((n : ℕ) (r : l.input.R) → x.AtEnd r → l.in_time n r ≡ true)
      → x.AtEnd y.1.reader
      → Lost x a (await_reply l limit y) c
  unfolding await_reply reply_of get_message set_reader
  await_reply-Lost x socket limit a (err e, s) c up idle prompt at_end =
      SocketFails-Lost x socket a (not_written e) s e c up idle refl at_end
  await_reply-Lost x socket limit a (ok _, s) c up idle prompt at_end =
      let (e, r, f, still) = read_message-AtEnd l.input x s.reader at_end in
      rw (prompt limit s.reader at_end, f)
        (SocketFails-Lost x socket a (not_read (connection_failed e)) (record s { reader = r })
          (connection_failed e) c up idle refl still)

  exchange_on-Lost :
      (x : Ending l.input) (socket limit : ℕ) (a : Ask) (body : IoResult (List ℕ)) (s : Socket l)
      (c : ReliableUdsClient)
      → c.state ≡ connected
      → Idle socket c
      → ((n : ℕ) (r : l.input.R) → x.AtEnd r → l.in_time n r ≡ true)
      → x.AtEnd s.reader
      → Lost x a (exchange_on l limit body s) c
  unfolding exchange_on
  exchange_on-Lost x socket limit a (io_err e) s c up idle prompt at_end =
      not_encoded-Lost x socket a e s c up idle at_end
  exchange_on-Lost x socket limit a (io_ok body) s c up idle prompt at_end =
      await_reply-Lost x socket limit a (put msg_request body s) c up idle prompt
        (unfold put set_writer in at_end)

  -- A client whose peer has closed the stream never recovers by calling. On a connected client whose
  -- mutexes are free, with a stream that has ended, where a read at the end returns at once, any
  -- list of calls, one after another, returns an error for each, whatever dialling would come to and
  -- whatever writing comes to; and after all of them the client is exactly as it was: connected, on
  -- the same stream, with nothing recorded.
  pub calls_over_ended :
      (x : Ending l.input) (socket : ℕ) (asks : List Ask) (s : Socket l) (c : ReliableUdsClient)
      → c.state ≡ connected
      → Idle socket c
      → ((n : ℕ) (r : l.input.R) → x.AtEnd r → l.in_time n r ≡ true)
      → x.AtEnd s.reader
      → (rs : List (Result Response)) × (calls_over asks s c ≡ some (rs, c))
        × (length rs ≡ length asks)
        × All (λ r. is_ok r ≡ false) rs
  calls_over_ended x socket [] s c up idle prompt at_end = ([], refl, refl, tt)
  calls_over_ended x socket (a ∷ asks) s c up idle prompt at_end =
      let (r, e, lost, still) =
        exchange_on-Lost x socket c.config.request_timeout a a.body s c up idle prompt at_end in
      let (rs, f, n, all_lost) =
        calls_over_ended x socket asks (call_over a s c).1 c up idle prompt still in
      (r ∷ rs, rw e (rw f refl), ap suc n, (lost, all_lost))
