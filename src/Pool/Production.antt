-- ===== src/Pool/Production.antt =====
-- src/pool.rs: `ProductionPool`. A call runs between other calls, so it is cut at each await and at
-- each lock into the steps that it makes on the shared state. A client is the number under which
-- it was allocated.
pub mod System
pub mod Counting
pub mod Exclusive
pub mod Shutdown
pub mod Sequential
pub mod Reports
pub mod Outage
pub mod Recovery
mod Tests
use xprotocol.Prelude.{
  ℕ, zero, suc, ◌+◌, String, Bool, true, false, Option, none, some, List, [], ◌∷◌, ◌++◌, fetch_add,
  fetch_sub, if◌then◌else◌,
}
use xprotocol.Error.{ProtocolError, server, timeout, resource_exhausted, Result, ok, err}
use xprotocol.Breaker
use xprotocol.Breaker.{CircuitBreaker, CircuitState}

pub record PoolConfig : Type 0 where
  pub max_concurrent : ℕ
  pub request_timeout : ℕ
  pub circuit_breaker_threshold : ℕ
  pub circuit_breaker_timeout : ℕ
  pub connection_timeout : ℕ

-- durations in milliseconds
abbrev pub default_config : PoolConfig
default_config = record {
  max_concurrent = 100;
  request_timeout = 30000;
  circuit_breaker_threshold = 5;
  circuit_breaker_timeout = 30000;
  connection_timeout = 5000;
}

pub record PoolMetricsInner : Type 0 where
  pub total_requests : ℕ
  pub successful_requests : ℕ
  pub failed_requests : ℕ
  pub circuit_breaker_opens : ℕ
  pub timeout_errors : ℕ
  pub active_requests : ℕ

pub record ProductionPool : Type 0 where
  pub config : PoolConfig
  pub permits : ℕ
  pub semaphore_closed : Bool
  pub client_pool : List ℕ
  pub next_client : ℕ
  pub circuit_breaker : CircuitBreaker
  pub metrics : PoolMetricsInner
  pub shutdown : Bool

unfoldable pub with_config : PoolConfig → ProductionPool
with_config config = record {
  config = config;
  permits = config.max_concurrent;
  semaphore_closed = false;
  client_pool = [];
  next_client = 0;
  circuit_breaker =
      Breaker.with_timeout config.circuit_breaker_timeout
        (Breaker.new config.circuit_breaker_threshold);
  metrics = record {
    total_requests = 0;
    successful_requests = 0;
    failed_requests = 0;
    circuit_breaker_opens = 0;
    timeout_errors = 0;
    active_requests = 0;
  };
  shutdown = false;
}

count_entry : PoolMetricsInner → PoolMetricsInner
count_entry m = record m {
  total_requests = fetch_add m.total_requests 1;
  active_requests = fetch_add m.active_requests 1;
}

count_exit : PoolMetricsInner → PoolMetricsInner
count_exit m = record m { active_requests = fetch_sub m.active_requests 1 }

admitted : Result (Unit {0}) → ProductionPool → Result (Unit {0}) × ProductionPool
unfolding count_entry
admitted (ok _) p = (ok tt, record p { metrics = count_entry p.metrics })
admitted (err e) p = (err e, p)

-- up to `semaphore.acquire()`: the shutdown flag, the breaker, the counters
unfoldable pub enter : ℕ → ProductionPool → Result (Unit {0}) × ProductionPool
unfolding admitted
enter now p =
    let (r, breaker) = Breaker.can_execute now p.circuit_breaker in
    if p.shutdown
    then (err (server "pool is shutting down"), p)
    else admitted r (record p { circuit_breaker = breaker })

-- `semaphore.acquire()`: `none` is a call that waits on
unfoldable pub acquire : ProductionPool → Option (Result (Unit {0}) × ProductionPool)
unfolding count_exit
acquire p =
    if p.semaphore_closed
    then some
        (err (resource_exhausted "pool exhausted"), record p { metrics = count_exit p.metrics })
    else elim p.permits [ zero ↦ none | suc n ↦ some (ok tt, record p { permits = n }) ]

-- `Vec::pop` takes the newest, which is the head here; else a client is made
unfoldable pub take_client : ProductionPool → ℕ × ProductionPool
take_client p = elim p.client_pool [
  | [] ↦ (p.next_client, record p { next_client = p.next_client + 1 })
  | c ∷ rest ↦ (c, record p { client_pool = rest })
]

unfoldable pub give_back : ℕ → ProductionPool → ProductionPool
give_back client p = record p { client_pool = client ∷ p.client_pool }

-- `timeout(.., client.call(..)).await`
pub data Outcome (A : Type 0) : Type 0 where
  answered : A → Outcome A
  failed : ProtocolError → Outcome A
  timed_out : Outcome A

-- `drop(permit)` and the last decrement
release : ProductionPool → ProductionPool
unfolding count_exit
release p = record p { permits = p.permits + 1; metrics = count_exit p.metrics }

module _ {A : Type 0} where
  -- the `match result` at the end
  unfoldable pub finish : ℕ → Outcome A → ProductionPool → Result A × ProductionPool
  unfolding release
  finish now (answered a) p =
      let q = release p in
      (
        ok a,
        record q {
          circuit_breaker = Breaker.record_success q.circuit_breaker;
          metrics = record (q.metrics) {
            successful_requests = fetch_add q.metrics.successful_requests 1;
          };
        },
      )
  finish now (failed e) p =
      let q = release p in
      (
        err e,
        record q {
          circuit_breaker = Breaker.record_failure now q.circuit_breaker;
          metrics = record (q.metrics) { failed_requests = fetch_add q.metrics.failed_requests 1 };
        },
      )
  finish now timed_out p =
      let q = release p in
      (
        err timeout,
        record q {
          circuit_breaker = Breaker.record_failure now q.circuit_breaker;
          metrics = record (q.metrics) {
            timeout_errors = fetch_add q.metrics.timeout_errors 1;
            failed_requests = fetch_add q.metrics.failed_requests 1;
          };
        },
      )

-- `close` up to its await: the flag and the semaphore
unfoldable pub shut : ProductionPool → ProductionPool
shut p = record p { shutdown = true; semaphore_closed = true }

-- the rest of `close`, under the lock of the pool, with the clients whose connections it closes
unfoldable pub clear_pool : ProductionPool → List ℕ × ProductionPool
clear_pool p = (p.client_pool, record p { client_pool = [] })

unfoldable pub close : ProductionPool → List ℕ × ProductionPool
unfolding shut clear_pool
close p = clear_pool (shut p)

-- `circuit_breaker_state`, and what `metrics` does to the breaker
unfoldable pub circuit_breaker_state : ℕ → ProductionPool → CircuitState × ProductionPool
circuit_breaker_state now p =
    let (state, breaker) = Breaker.poll now p.circuit_breaker in
    (state, record p { circuit_breaker = breaker })
