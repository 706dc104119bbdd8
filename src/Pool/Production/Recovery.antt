-- ===== src/Pool/Production/Recovery.antt =====
-- src/pool.rs with src/circuit_breaker.rs: a `ProductionPool` whose server is out, and comes back.
use xprotocol.Prelude.{
  ℕ, suc, ◌+◌, ◌-◌, ◌%◌, ◌<◌, ◌≤◌, ◌≡◌, ◌∙◌, sym, subst, ap, refl, some, List, [], ◌∷◌, ◌++◌, map,
  length, All, u64_mod, arith,
}
use xprotocol.Error.{ok}
use xprotocol.Breaker
use xprotocol.Breaker.{closed, CircuitBreaker}
use xprotocol.Breaker.Waiting.{open_recovers}
use xprotocol.Pool.Production.{ProductionPool, answered}
use xprotocol.Pool.Production.Sequential.{call_with_timeout_settles}
use xprotocol.Pool.Production.Reports.{Job, call_within}
use xprotocol.Pool.Production.Outage.{
  Fault, IsUsable, IsOut, broken, told, turned_away, Settled-IsUsable, calls_outage,
}
use xprotocol.Pool.InTurn.{after_these, join, in_turn-append, attach, follow, in_turn}

module _ {A : Type 0} where
  -- a call that every client answers in time
  abbrev pub working : ℕ → ℕ → A → Job A
  working now later a = record { now = now; later = later; run = λ timeout client. answered a }

  recovers :
      (timeout now later last k : ℕ) (a : A) (p q : ProductionPool)
      → IsOut last k p q
      → p.circuit_breaker.timeout < now - last
      → (r : ProductionPool) × (call_within timeout (working now later a) q ≡ some (ok a, r))
        × IsUsable r
        × (r.circuit_breaker.state ≡ closed)
        × (r.circuit_breaker.failures ≡ 0)
        × (r.metrics.total_requests ≡ (p.metrics.total_requests + suc k) % u64_mod)
  unfolding Breaker.record_success
  recovers timeout now later last k a p q out late =
      let (passes, state) =
        open_recovers q.circuit_breaker now last out.state out.last_failure
          (subst (λ t. t < now - last) (sym out.timeout) late) in
      let u = out.usable in
      let (c, r, e, s) =
        call_with_timeout_settles now later u.permit.0 (λ c. answered a) q u.in_use passes
          u.granting u.permit.1 u.active in
      (
        r,
        e,
        Settled-IsUsable u s,
        ap (λ b. CircuitBreaker.state b) s.breaker ∙ state,
        ap (λ b. CircuitBreaker.failures b) s.breaker,
        omega (arith, s.total, out.total),
      )

  -- The breaker ends an outage for the callers, and the pool comes back from it. A pool in use
  -- whose breaker is closed, with a permit free, a threshold below 2 ^ 64 and fewer active
  -- requests than that, is asked by one caller for one call of `call_with_timeout` after another,
  -- each awaited before the next: first as many calls that fail on every client, by an error or a
  -- timeout, as are missing to the threshold; then any calls, each at a time at which the timeout
  -- of the breaker has not passed since the end of the last failure; then, after that time, a
  -- call that every client answers. Each of them returns: each failing call gets its failure,
  -- every call after them is refused by the breaker, whatever a client would have given, and the
  -- last call gets its answer. The pool is then usable as before, with the breaker closed and no
  -- failure counted; the failing calls and the last one are the only ones that are counted as
  -- requests, modulo 2 ^ 64.
  pub calls_recover :
      (timeout now later : ℕ) (a : A) (fs : List Fault) (f : Fault) (jobs : List (Job A))
      (p : ProductionPool)
      → IsUsable p
      → p.circuit_breaker.state ≡ closed
      → p.circuit_breaker.failures + suc (length fs) ≡ p.circuit_breaker.threshold
      → p.circuit_breaker.threshold < u64_mod
      → All (λ job. Job.now job - f.later ≤ p.circuit_breaker.timeout) jobs
      → p.circuit_breaker.timeout < now - f.later
      → (q : ProductionPool) × (in_turn
            (call_within timeout)
            ((map broken fs ++ broken f ∷ jobs) ++ working now later a ∷ [])
            p
          ≡ some ((map told fs ++ told f ∷ map (λ job. turned_away) jobs) ++ ok a ∷ [], q))
        × IsUsable q
        × (q.circuit_breaker.state ≡ closed)
        × (q.circuit_breaker.failures ≡ 0)
        × (q.metrics.total_requests ≡ (p.metrics.total_requests + suc (suc (length fs))) % u64_mod)
  unfolding in_turn follow attach join after_these
  calls_recover timeout now later a fs f jobs p u c k l h late =
      let (q, ran, out) = calls_outage timeout fs f jobs p u c k l h in
      let (r, e, v, state, failures, total) =
        recovers timeout now later f.later (suc (length fs)) a p q out late in
      (
        r,
        in_turn-append (call_within timeout) (map broken fs ++ broken f ∷ jobs)
              (working now later a ∷ []) p
            ∙ rw ran (rw e refl),
        v,
        state,
        failures,
        total,
      )
