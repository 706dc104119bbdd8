-- ===== src/Breaker.antt =====
-- src/circuit_breaker.rs. An `Instant` is a number, and `now` is what `Instant::now` gives; the
-- subtraction of instants stops at 0, as `elapsed` does.
pub mod Transitions
pub mod Streak
pub mod Waiting
mod Tests
use xprotocol.Prelude.{
  ℕ, ◌-◌, Bool, true, false, Option, none, some, leb, ltb, fetch_add, if◌then◌else◌,
}
use xprotocol.Error.{Result, ok, err, connection_failed}

pub data CircuitState : Type 0 where
  closed is_open half_open : CircuitState

pub record CircuitBreaker : Type 0 where
  pub failures : ℕ
  pub successes : ℕ
  pub state : CircuitState
  pub threshold : ℕ
  pub timeout : ℕ
  pub last_failure : Option ℕ

-- `Duration::from_secs(30)`, in milliseconds
unfoldable pub new : ℕ → CircuitBreaker
new threshold = record {
  failures = 0;
  successes = 0;
  state = closed;
  threshold = threshold;
  timeout = 30000;
  last_failure = none;
}

unfoldable pub with_timeout : ℕ → CircuitBreaker → CircuitBreaker
with_timeout timeout b = record b { timeout = timeout }

close_half_open : CircuitState → CircuitState
close_half_open half_open = closed
close_half_open s = s

unfoldable pub record_success : CircuitBreaker → CircuitBreaker
unfolding close_half_open
record_success b = record b {
  successes = fetch_add b.successes 1;
  failures = 0;
  state = close_half_open b.state;
}

unfoldable pub record_failure : ℕ → CircuitBreaker → CircuitBreaker
record_failure now b =
    let failures = fetch_add b.failures 1 in
    record b {
      failures = failures;
      last_failure = some now;
      state = if leb b.threshold failures then is_open else b.state;
    }

-- the state that `state()` finds, and leaves behind
probe : ℕ → ℕ → Option ℕ → CircuitState → CircuitState
probe now timeout (some last) is_open = if ltb timeout (now - last) then half_open else is_open
probe now timeout last s = s

unfoldable pub poll : ℕ → CircuitBreaker → CircuitState × CircuitBreaker
unfolding probe
poll now b = let s = probe now b.timeout b.last_failure b.state in (s, record b { state = s })

not_open : CircuitState → Bool
not_open is_open = false
not_open s = true

unfoldable pub is_available : ℕ → CircuitBreaker → Bool × CircuitBreaker
unfolding poll not_open
is_available now b = let (s, b') = poll now b in (not_open s, b')

verdict : CircuitState → Result (Unit {0})
verdict is_open = err (connection_failed "circuit breaker open")
verdict s = ok tt

unfoldable pub can_execute : ℕ → CircuitBreaker → Result (Unit {0}) × CircuitBreaker
unfolding poll verdict
can_execute now b = let (s, b') = poll now b in (verdict s, b')

-- What a client of the breaker does to it, each with the time at which it does it.
pub data Event : Type 0 where
  succeeded failed polled : Event

unfoldable pub step : CircuitBreaker → ℕ × Event → CircuitBreaker
unfolding record_success record_failure poll
step b (now, succeeded) = record_success b
step b (now, failed) = record_failure now b
step b (now, polled) = (poll now b).1
