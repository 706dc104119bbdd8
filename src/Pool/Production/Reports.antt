-- ===== src/Pool/Production/Reports.antt =====
-- src/pool.rs: the rest of `ProductionPool`: `new`, `call`, and what it reports.
use xprotocol.Prelude.{ℕ, ◌≡◌, refl, String, Bool, true, Option, some, List, [], ◌∷◌, map}
use xprotocol.Error.{Result, err, server}
use xprotocol.Breaker.{CircuitState, closed, is_open, half_open}
use xprotocol.Pool.Production.{ProductionPool, Outcome, default_config, with_config, enter}
use xprotocol.Pool.Production
use xprotocol.Pool.Production.Sequential.{call_with_timeout}
use xprotocol.Pool.InTurn.{attach, follow, in_turn}

abbrev pub new : ProductionPool
unfolding with_config
new = with_config default_config

-- `{:?}` of the breaker's state
abbrev pub state_text : CircuitState → String
state_text closed = "Closed"
state_text is_open = "Open"
state_text half_open = "HalfOpen"

pub record PoolMetrics : Type 0 where
  pub total_requests : ℕ
  pub successful_requests : ℕ
  pub failed_requests : ℕ
  pub circuit_breaker_opens : ℕ
  pub circuit_breaker_state : String
  pub timeout_errors : ℕ
  pub active_requests : ℕ

-- Asking for the breaker's state moves it on, where its timeout has passed.
unfoldable pub metrics : ℕ → ProductionPool → PoolMetrics × ProductionPool
metrics now p =
    let (state, q) = Production.circuit_breaker_state now p in
    (
      record {
        total_requests = p.metrics.total_requests;
        successful_requests = p.metrics.successful_requests;
        failed_requests = p.metrics.failed_requests;
        circuit_breaker_opens = p.metrics.circuit_breaker_opens;
        circuit_breaker_state = state_text state;
        timeout_errors = p.metrics.timeout_errors;
        active_requests = p.metrics.active_requests;
      },
      q,
    )

abbrev pub is_shutting_down : ProductionPool → Bool
is_shutting_down p = p.shutdown

-- A call: when it starts and ends, and what each client would give within a timeout.
pub record Job (A : Type 0) : Type 0 where
  pub now : ℕ
  pub later : ℕ
  pub run : ℕ → ℕ → Outcome A

module _ {A : Type 0} where
  -- `call_with_timeout` of a job
  abbrev pub call_within : ℕ → Job A → ProductionPool → Option (Result A × ProductionPool)
  call_within timeout job p = call_with_timeout job.now job.later (job.run timeout) p

  unfoldable pub call : Job A → ProductionPool → Option (Result A × ProductionPool)
  call job p = call_within p.config.request_timeout job p

  call_refused :
      (now later : ℕ) (run : ℕ → Outcome A) (p : ProductionPool)
      → p.shutdown ≡ true
      → call_with_timeout now later run p ≡ some (err (server "pool is shutting down"), p)
  unfolding call_with_timeout enter
  call_refused now later run p e = rw e refl

  -- A pool that is shut down refuses each of the calls that are made one after another, with the
  -- same error, and stays as it is: no breaker, counter, permit or client of it changes.
  pub calls_refused :
      (timeout : ℕ) (jobs : List (Job A)) (p : ProductionPool)
      → p.shutdown ≡ true
      → in_turn (call_within timeout) jobs p
        ≡ some (map (λ job. err (server "pool is shutting down")) jobs, p)
  unfolding in_turn follow attach
  calls_refused timeout [] p e = refl
  calls_refused timeout (job ∷ jobs) p e =
      rw (call_refused job.now job.later (job.run timeout) p e)
        (rw (calls_refused timeout jobs p e) refl)
