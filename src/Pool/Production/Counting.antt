-- ===== src/Pool/Production/Counting.antt =====
-- src/pool.rs: what the counters of `ProductionPool` say, and how many clients there are.
use xprotocol.Prelude.{
  ℕ, suc, ◌+◌, ◌%◌, ◌≤◌, ◌≡◌, ap, some, List, ◌∷◌, ◌++◌, length, length-append, arith, u64_mod,
}
use xprotocol.Error.{ProtocolError, ok, err}
use xprotocol.Pool.Production.{
  PoolConfig, ProductionPool, Outcome, answered, failed, timed_out, enter, acquire, take_client,
  give_back, finish, shut, clear_pool, circuit_breaker_state,
}
use xprotocol.Pool.Production.System.{
  System, in_flight, is_answer, is_error, is_timeout, start, Step, enters, turned_away, acquires,
  rejects, takes, gives, finishes, shuts, clears, polls, Reach, here, next,
}

-- Each counter is the number of events that it stands for, as far as 64 bits go.
pub record Counted (max_concurrent : ℕ) (s : System) : Type 0 where
  pub total : s.pool.metrics.total_requests ≡ s.entered % u64_mod
  pub successful : s.pool.metrics.successful_requests ≡ s.answers % u64_mod
  pub failures : s.pool.metrics.failed_requests ≡ s.errors % u64_mod
  pub timed : s.pool.metrics.timeout_errors ≡ s.timeouts % u64_mod
  pub active : s.pool.metrics.active_requests ≡ in_flight s % u64_mod
  pub opens : s.pool.metrics.circuit_breaker_opens ≡ 0
  pub balance : s.entered ≡ s.answers + s.errors + s.rejected + in_flight s
  pub few_timeouts : s.timeouts ≤ s.errors
  pub permits : s.pool.permits + s.granted + length s.running + s.returned ≡ max_concurrent
  pub clients : length s.pool.client_pool + length s.running ≤ max_concurrent

start-Counted : (c : PoolConfig) → Counted c.max_concurrent (start c)
unfolding start
start-Counted c = ground arith

module _ (m : ℕ) {s : System} (v : Counted m s) where
  enters-Counted :
      (now : ℕ) (p : ProductionPool)
      → enter now s.pool ≡ (ok tt, p)
      → Counted m (record s { pool = p; waiting = s.waiting + 1; entered = s.entered + 1 })
  unfolding enter
  enters-Counted now p e = ground arith

  turned_away-Counted :
      (now : ℕ) (e : ProtocolError) (p : ProductionPool)
      → enter now s.pool ≡ (err e, p)
      → Counted m (record s { pool = p })
  unfolding enter
  turned_away-Counted now x p e = ground arith

  acquires-Counted :
      (n : ℕ) (p : ProductionPool)
      → s.waiting ≡ suc n
      → acquire s.pool ≡ some (ok tt, p)
      → Counted m (record s { pool = p; waiting = n; granted = s.granted + 1 })
  unfolding acquire
  acquires-Counted n p w e = ground arith

  rejects-Counted :
      (n : ℕ) (x : ProtocolError) (p : ProductionPool)
      → s.waiting ≡ suc n
      → acquire s.pool ≡ some (err x, p)
      → Counted m (record s { pool = p; waiting = n; rejected = s.rejected + 1 })
  unfolding acquire
  rejects-Counted n x p w e = ground arith

  takes-Counted :
      (n c : ℕ) (p : ProductionPool)
      → s.granted ≡ suc n
      → take_client s.pool ≡ (c, p)
      → Counted m (record s { pool = p; granted = n; running = c ∷ s.running })
  unfolding take_client
  takes-Counted n c p g e = ground arith

  gives-Counted :
      (c : ℕ) (before after : List ℕ)
      → s.running ≡ before ++ c ∷ after
      → Counted m (record s {
        pool = give_back c s.pool;
        running = before ++ after;
        returned = s.returned + 1;
      })
  unfolding give_back
  gives-Counted c before after e =
      let less : length s.running ≡ suc (length (before ++ after)) =
        omega (arith, ap length e, length-append before (c ∷ after), length-append before after) in
      ground (arith, less)

  finishes-Counted :
      (now n : ℕ) (o : Outcome ℕ)
      → s.returned ≡ suc n
      → Counted m (record s {
        pool = (finish now o s.pool).1;
        returned = n;
        answers = s.answers + is_answer o;
        errors = s.errors + is_error o;
        timeouts = s.timeouts + is_timeout o;
      })
  unfolding finish
  finishes-Counted now n (answered a) e = ground arith
  finishes-Counted now n (failed x) e = ground arith
  finishes-Counted now n timed_out e = ground arith

  shuts-Counted : Counted m (record s { pool = shut s.pool })
  unfolding shut
  shuts-Counted = ground arith

  clears-Counted : Counted m (record s { pool = (clear_pool s.pool).1 })
  unfolding clear_pool
  clears-Counted = ground arith

  polls-Counted : (now : ℕ) → Counted m (record s { pool = (circuit_breaker_state now s.pool).1 })
  unfolding circuit_breaker_state
  polls-Counted now = ground arith

pub Step-Counted : (m : ℕ) {s t : System} → Step s t → Counted m s → Counted m t
Step-Counted m (enters now p e) v = enters-Counted m v now p e
Step-Counted m (turned_away now x p e) v = turned_away-Counted m v now x p e
Step-Counted m (acquires n p w e) v = acquires-Counted m v n p w e
Step-Counted m (rejects n x p w e) v = rejects-Counted m v n x p w e
Step-Counted m (takes n c p g e) v = takes-Counted m v n c p g e
Step-Counted m (gives c before after e) v = gives-Counted m v c before after e
Step-Counted m (finishes now n o e) v = finishes-Counted m v now n o e
Step-Counted m shuts v = shuts-Counted m v
Step-Counted m (clears e) v = clears-Counted m v
Step-Counted m (polls now) v = polls-Counted m v now

-- In every state that calls of any number reach, however they interleave with one another and
-- with `close`: each counter of the pool is, modulo 2 ^ 64, the number of events that it names;
-- every call that was counted in is answered, failed, rejected by the closed semaphore, or in
-- flight; the timeouts are among the failures; permits and calls that hold one add up to
-- `max_concurrent`; no more clients than that exist; and `circuit_breaker_opens` is 0.
pub Reach-Counted :
    {config : PoolConfig} {s : System} → Reach config s → Counted config.max_concurrent s
Reach-Counted {config} here = start-Counted config
Reach-Counted {config} (next r st) = Step-Counted config.max_concurrent st (Reach-Counted r)
