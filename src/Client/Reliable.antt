-- ===== src/Client/Reliable.antt =====
-- src/client.rs: `ReliableUdsClient`. An operation is a function of the client and of what the
-- socket and the peer do. The two tokio mutexes, `lock` and `stream`, are part of the client: a
-- task that locks a mutex that is held waits, also where it is the holder itself.
pub mod Call
pub mod Redial
pub mod Deadlock
pub mod Calls
pub mod Exchanging
pub mod Reconnect
use xprotocol.Prelude.{
  ℕ, zero, suc, ◌+◌, ◌-◌, ◌*◌, Bool, true, false, not, Option, none, some, List, [], ◌∷◌, ltb, ◌==◌,
  String, decimal, str_append, if◌then◌else◌,
}
use Prim.Native.Nat.{min}
use xprotocol.Error.{
  ProtocolError, connection_failed, connection_closed, timeout, encoding, Result, ok, err, IoResult,
  io_ok, io_err, from_json,
}
use xprotocol.Wire.{msg_error, msg_response}
use xprotocol.Client.Stats.{ConnectionStats, new_stats, record_request, record_reconnect}

pub data ConnectionState : Type 0 where
  disconnected connecting connected reconnecting failed : ConnectionState

pub record ConnectionConfig : Type 0 where
  pub connect_timeout : ℕ
  pub request_timeout : ℕ
  pub idle_timeout : ℕ
  pub heartbeat_interval : ℕ
  pub max_reconnect_attempts : ℕ
  pub reconnect_delay : ℕ

-- durations in milliseconds
abbrev pub default_config : ConnectionConfig
default_config = record {
  connect_timeout = 5000;
  request_timeout = 30000;
  idle_timeout = 300000;
  heartbeat_interval = 30000;
  max_reconnect_attempts = 5;
  reconnect_delay = 1000;
}

abbrev pub with_connect_timeout : ℕ → ConnectionConfig → ConnectionConfig
with_connect_timeout limit c = record c { connect_timeout = limit }

abbrev pub with_request_timeout : ℕ → ConnectionConfig → ConnectionConfig
with_request_timeout limit c = record c { request_timeout = limit }

abbrev pub with_idle_timeout : ℕ → ConnectionConfig → ConnectionConfig
with_idle_timeout limit c = record c { idle_timeout = limit }

abbrev pub with_heartbeat_interval : ℕ → ConnectionConfig → ConnectionConfig
with_heartbeat_interval interval c = record c { heartbeat_interval = interval }

abbrev pub with_max_reconnect_attempts : ℕ → ConnectionConfig → ConnectionConfig
with_max_reconnect_attempts attempts c = record c { max_reconnect_attempts = attempts }

abbrev pub with_reconnect_delay : ℕ → ConnectionConfig → ConnectionConfig
with_reconnect_delay delay c = record c { reconnect_delay = delay }

abbrev pub production : ConnectionConfig
production = record {
  connect_timeout = 10000;
  request_timeout = 60000;
  idle_timeout = 600000;
  heartbeat_interval = 30000;
  max_reconnect_attempts = 10;
  reconnect_delay = 2000;
}

-- `stream` is the socket that the client has, under a number; the last two fields say which of
-- the mutexes a task holds.
pub record ReliableUdsClient : Type 0 where
  pub config : ConnectionConfig
  pub state : ConnectionState
  pub stream : Option ℕ
  pub stats : ConnectionStats
  pub connected_at : Option ℕ
  pub last_request_at : Option ℕ
  pub lock_held : Bool
  pub stream_held : Bool

unfoldable pub with_config : ConnectionConfig → ReliableUdsClient
with_config config = record {
  config = config;
  state = disconnected;
  stream = none;
  stats = new_stats;
  connected_at = none;
  last_request_at = none;
  lock_held = false;
  stream_held = false;
}

abbrev pub new : ReliableUdsClient
unfolding with_config
new = with_config default_config

-- How an operation ends: it returns, or it waits for a mutex for as long as that stays held.
pub data Run (A : Type 0) : Type 0 where
  returned : Result A → ReliableUdsClient → Run A
  waits : ReliableUdsClient → Run A

is_state_connected : ConnectionState → Bool
is_state_connected connected = true
is_state_connected s = false

unfoldable pub is_connected : ReliableUdsClient → Bool
unfolding is_state_connected
is_connected c = is_state_connected c.state

-- `timeout(.., UnixStream::connect(..)).await`
pub data Dial : Type 0 where
  dialled : ℕ → Dial
  refused : String → Dial
  too_slow : Dial

set_stream : Option ℕ → ReliableUdsClient → ReliableUdsClient
set_stream s c = record c { stream = s }

dial_failed : ℕ → ProtocolError → ReliableUdsClient → Run (Unit {0})
dial_failed now e c =
    returned (err e)
      (record c { state = failed; stats = record_reconnect now false c.stats; lock_held = false })

-- the `match result` of `connect`, with `lock` held
settle_dial : ℕ → Dial → ReliableUdsClient → Run (Unit {0})
unfolding dial_failed set_stream
settle_dial now (dialled s) c =
    if c.stream_held
    then waits c
    else returned (ok tt) (record (set_stream (some s) c) {
      state = connected;
      connected_at = some now;
      stats = record_reconnect now true c.stats;
      lock_held = false;
    })
settle_dial now (refused e) c = dial_failed now (connection_failed e) c
settle_dial now too_slow c = dial_failed now timeout c

dial_from : ℕ → Dial → ConnectionState → ReliableUdsClient → Run (Unit {0})
unfolding settle_dial
dial_from now d connected c = returned (ok tt) c
dial_from now d connecting c = returned (ok tt) c
dial_from now d s c = settle_dial now d (record c { state = connecting; lock_held = true })

-- The sleep at the start of `connect` holds the read lock of `state`, so that nothing changes
-- meanwhile, and its second test never passes.
unfoldable pub connect : ℕ → Dial → ReliableUdsClient → Run (Unit {0})
unfolding dial_from
connect now d c = if c.lock_held then waits c else dial_from now d c.state c

unfoldable pub disconnect : ReliableUdsClient → Run (Unit {0})
disconnect c =
    if c.stream_held
    then waits c
    else returned (ok tt) (record c { stream = none; state = disconnected; connected_at = none })

-- What becomes of one request on the stream: encoding, writing, reading under the timeout.
pub data Exchange : Type 0 where
  not_encoded : String → Exchange
  not_written not_read : ProtocolError → Exchange
  no_reply : Exchange
  replied : ℕ → List ℕ → Exchange

-- both guards are dropped where `call` returns
unlock : ReliableUdsClient → ReliableUdsClient
unlock c = record c { lock_held = false; stream_held = false }

unlocked : {A : Type 0} → Result A → ReliableUdsClient → Run A
unfolding unlock
unlocked r c = returned r (unlock c)

-- `*self.stream.lock().await = None` and what comes after it
drop_stream : {A : Type 0} → ProtocolError → ReliableUdsClient → Run A
unfolding unlocked
drop_stream e c =
    if c.stream_held
    then waits c
    else unlocked (err e) (record c { stream = none; state = disconnected })

ping_stream : Result (Unit {0}) → Option ℕ → ReliableUdsClient → Run (Unit {0})
unfolding unlocked
ping_stream r none c = unlocked (err connection_closed) c
ping_stream r (some s) c = unlocked r c

-- `ping`, with what becomes of writing
unfoldable pub ping : Result (Unit {0}) → ReliableUdsClient → Run (Unit {0})
unfolding ping_stream
ping r c =
    if is_connected c
    then (if c.lock_held
        then waits c
        else if c.stream_held
        then waits (record c { lock_held = true })
        else ping_stream r c.stream (record c { lock_held = true; stream_held = true }))
    else returned (err connection_closed) c

idle_since : ℕ → ℕ → Option ℕ → Bool
idle_since now limit none = false
idle_since now limit (some last) = ltb limit (now - last)

unfoldable pub needs_reconnect : ℕ → ReliableUdsClient → Bool
unfolding idle_since
needs_reconnect now c = idle_since now c.config.idle_timeout c.last_request_at

unfoldable pub ensure_connected : ℕ → Dial → ReliableUdsClient → Run (Unit {0})
ensure_connected now d c = if is_connected c then returned (ok tt) c else connect now d c
