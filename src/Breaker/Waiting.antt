-- ===== src/Breaker/Waiting.antt =====
-- src/circuit_breaker.rs: how long an open breaker refuses, and what ends it.
use xprotocol.Prelude.{
  ℕ, ◌<◌, ◌-◌, ◌≤◌, ◌≡◌, refl, ap, some, arith, leb, ltb, fetch_add, if◌then◌else◌,
}
use xprotocol.Error.{Result, ok, err, connection_failed, is_ok}
use xprotocol.Breaker.{
  closed, is_open, half_open, CircuitBreaker, record_success, record_failure, can_execute,
  is_available, poll,
}

abbrev pub refused : Result (Unit {0})
refused = err (connection_failed "circuit breaker open")

module _ (b : CircuitBreaker) (now later : ℕ) where
  -- After a failure at `now` that reaches the threshold, a call at `later` is refused exactly
  -- until the timeout has passed, and from then on the breaker is half-open.
  pub can_execute-record_failure :
      b.threshold ≤ fetch_add b.failures 1
      → (can_execute later (record_failure now b)).0
          ≡ (if ltb b.timeout (later - now) then ok tt else refused)
        × ((can_execute later (record_failure now b)).1.state
            ≡ (if ltb b.timeout (later - now) then half_open else is_open))
  unfolding can_execute record_failure
  can_execute-record_failure h = ground arith

  -- In a half-open breaker the next result decides: a success closes it, so that calls pass at
  -- every time; a failure while the count stands at the threshold opens it again, and calls are
  -- refused until the timeout has passed anew.
  pub half_open_decides :
      b.state ≡ half_open
      → b.threshold ≤ fetch_add b.failures 1
      → ((record_success b).state ≡ closed)
        × ((can_execute later (record_success b)).0 ≡ ok tt)
        × ((record_failure now b).state ≡ is_open)
        × ((can_execute later (record_failure now b)).0
            ≡ (if ltb b.timeout (later - now) then ok tt else refused))
  unfolding can_execute record_success record_failure
  half_open_decides h k = (ground arith, ground arith, ground arith, ground arith)

-- `is_available` and `can_execute` agree at every time and in every state, and leave the same
-- breaker behind.
pub is_available-can_execute :
    (b : CircuitBreaker) (now : ℕ)
    → ((is_available now b).0 ≡ is_ok (can_execute now b).0)
      × ((is_available now b).1 ≡ (can_execute now b).1)
unfolding is_available can_execute
is_available-can_execute b now = (ground arith, refl)

module _ (b : CircuitBreaker) (now : ℕ) where
  poll_same : (poll now b).0 ≡ b.state → (can_execute now b).1 ≡ b
  unfolding can_execute poll
  poll_same h = ap (λ s. record b { state = s }) h

  -- An open breaker whose timeout has not passed refuses, and stays as it is.
  pub open_refuses :
      (last : ℕ)
      → b.state ≡ is_open
      → b.last_failure ≡ some last
      → now - last ≤ b.timeout
      → ((can_execute now b).0 ≡ refused) × ((can_execute now b).1 ≡ b)
  open_refuses last o l h =
      (unfold can_execute in ground arith, poll_same (unfold poll in ground arith))

  -- A closed breaker lets a call pass, and a failure of that call opens it where the count comes to
  -- the threshold, and leaves it closed where not.
  pub closed_fails :
      (later : ℕ)
      → b.state ≡ closed
      → ((can_execute now b).0 ≡ ok tt)
        × ((record_failure later (can_execute now b).1).state
            ≡ (if leb b.threshold (fetch_add b.failures 1) then is_open else closed))
  unfolding can_execute record_failure
  closed_fails later h = (ground arith, ground arith)

  -- An open breaker whose timeout has passed lets a call pass, and a success of that call closes it.
  pub open_recovers :
      (last : ℕ)
      → b.state ≡ is_open
      → b.last_failure ≡ some last
      → b.timeout < now - last
      → ((can_execute now b).0 ≡ ok tt) × ((record_success (can_execute now b).1).state ≡ closed)
  unfolding can_execute record_success
  open_recovers last o l h = (ground arith, ground arith)
