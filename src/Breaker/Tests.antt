-- ===== src/Breaker/Tests.antt =====
-- src/circuit_breaker.rs: the theorems at concrete breakers.
use xprotocol.Prelude.{◌≡◌, refl, some, [], ◌∷◌, arith}
use xprotocol.Breaker.{
  closed, is_open, half_open, CircuitBreaker, succeeded, failed, polled, new, with_timeout,
}
use xprotocol.Breaker.Streak.{run, failures-run}

abbrev tripped : CircuitBreaker
tripped = record {
  failures = 2;
  successes = 7;
  state = half_open;
  threshold = 2;
  timeout = 100;
  last_failure = some 1000;
}

failures-run_example :
    (run tripped ((1, failed) ∷ (2, succeeded) ∷ (3, polled) ∷ (4, failed) ∷ [])).failures ≡ 1
failures-run_example =
    failures-run tripped ((1, failed) ∷ (2, succeeded) ∷ (3, polled) ∷ (4, failed) ∷ [])
      (omega arith)

-- A success does not close a breaker that is open, and resets its count all the same.
success_while_open : (run (new 1) ((10, failed) ∷ (11, succeeded) ∷ [])).state ≡ is_open
unfolding run new
success_while_open = refl

one_cycle :
    (run (with_timeout 100 (new 1)) ((10, failed) ∷ (200, polled) ∷ (201, succeeded) ∷ [])).state
    ≡ closed
unfolding run new with_timeout
one_cycle = refl
