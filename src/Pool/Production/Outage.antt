-- ===== src/Pool/Production/Outage.antt =====
-- src/pool.rs with src/circuit_breaker.rs: a `ProductionPool` whose server is out, asked by one call
-- after another.
use xprotocol.Prelude.{
  ℕ, suc, ◌+◌, ◌-◌, ◌%◌, ◌<◌, ◌≤◌, ◌≡◌, ◌∙◌, sym, subst, ap, refl, Bool, false, Option, none, some,
  List, [], ◌∷◌, ◌++◌, map, length, All, u64_mod, fetch_add, arith, leb, leb-false, le→leb,
  if◌then◌else◌,
}
use xprotocol.Error.{ProtocolError, connection_failed, Result, err}
use xprotocol.Breaker
use xprotocol.Breaker.{closed, is_open, CircuitBreaker}
use xprotocol.Breaker.Waiting.{open_refuses, closed_fails}
use xprotocol.Pool.Production.{ProductionPool, Outcome, failed, timed_out}
use xprotocol.Pool.Production.Sequential.{
  Settled, call_with_timeout_settles, call_with_timeout_refused, to_result, judged,
}
use xprotocol.Pool.Production.Reports.{Job, call_within}
use xprotocol.Pool.InTurn.{attach, follow, in_turn}

-- a call that fails on every client: with an error, or by its timeout
pub record Fault : Type 0 where
  pub now : ℕ
  pub later : ℕ
  pub error : Option ProtocolError

-- The pool is in use, and a permit is free.
pub record IsUsable (p : ProductionPool) : Type 0 where
  pub in_use : p.shutdown ≡ false
  pub granting : p.semaphore_closed ≡ false
  pub permit : (n : ℕ) × (p.permits ≡ suc n)
  pub active : p.metrics.active_requests < u64_mod

-- What an outage whose last failure was at `last`, with `k` calls that went through, has left.
pub record IsOut (last k : ℕ) (p q : ProductionPool) : Type 0 where
  pub usable : IsUsable q
  pub state : q.circuit_breaker.state ≡ is_open
  pub last_failure : q.circuit_breaker.last_failure ≡ some last
  pub timeout : q.circuit_breaker.timeout ≡ p.circuit_breaker.timeout
  pub total : q.metrics.total_requests ≡ (p.metrics.total_requests + k) % u64_mod

-- what such a call does to the pool
record Failed (f : Fault) (p q : ProductionPool) : Type 0 where
  total : q.metrics.total_requests ≡ fetch_add p.metrics.total_requests 1
  failures : q.circuit_breaker.failures ≡ fetch_add p.circuit_breaker.failures 1
  threshold : q.circuit_breaker.threshold ≡ p.circuit_breaker.threshold
  timeout : q.circuit_breaker.timeout ≡ p.circuit_breaker.timeout
  last : q.circuit_breaker.last_failure ≡ some f.later
  state : q.circuit_breaker.state ≡ (
      if leb p.circuit_breaker.threshold (fetch_add p.circuit_breaker.failures 1)
      then is_open
      else closed)

module _ {A : Type 0} where
  abbrev outcome : Option ProtocolError → Outcome A
  outcome (some e) = failed e
  outcome none = timed_out

  abbrev pub broken : Fault → Job A
  broken f = record { now = f.now; later = f.later; run = λ timeout client. outcome f.error }

  -- what a call is told that fails so
  abbrev pub told : Fault → Result A
  told f = to_result (outcome f.error)

  abbrev pub turned_away : Result A
  turned_away = err (connection_failed "circuit breaker open")

reaches :
    (t n : ℕ)
    → n + 1 ≡ t
    → t < u64_mod
    → (if leb t (fetch_add n 1) then is_open else closed) ≡ is_open
reaches t n k l = rw (le→leb t (fetch_add n 1) (omega (arith, k, l))) refl

falls_short :
    (t n m : ℕ)
    → n + suc (suc m) ≡ t
    → t < u64_mod
    → (if leb t (fetch_add n 1) then is_open else closed) ≡ closed
falls_short t n m k l = rw (leb-false t (fetch_add n 1) (omega (arith, k, l))) refl

else_of : {X : Type 0} (b : Bool) (x y : X) → b ≡ false → (if b then x else y) ≡ y
else_of b x y e = rw e refl

judged-outcome :
    (A : Type 0) (later : ℕ) (e : Option ProtocolError) (b : CircuitBreaker)
    → judged later (outcome {A = A} e) b ≡ Breaker.record_failure later b
judged-outcome A later (some e) b = refl
judged-outcome A later none b = refl

module _ {A : Type 0} where
  -- A call that goes through leaves the pool usable.
  pub Settled-IsUsable :
      {now later : ℕ} {o : Outcome A} {p q : ProductionPool}
      → IsUsable p
      → Settled now later o p q
      → IsUsable q
  Settled-IsUsable u s = record {
    in_use = s.flags.0 ∙ u.in_use;
    granting = s.flags.1 ∙ u.granting;
    permit = (u.permit.0, s.permits ∙ u.permit.1);
    active = subst (λ n. n < u64_mod) (sym s.active) u.active;
  }

  -- One call that fails, through a breaker that is closed.
  call_within-Failed :
      (timeout : ℕ) (f : Fault) (p : ProductionPool)
      → IsUsable p
      → p.circuit_breaker.state ≡ closed
      → (q : ProductionPool) × (call_within {A = A} timeout (broken f) p ≡ some (told f, q))
        × IsUsable q
        × Failed f p q
  unfolding Breaker.record_failure Breaker.can_execute
  call_within-Failed timeout f p u closed_now =
      let b = p.circuit_breaker in
      let (passes, state) = closed_fails b f.now f.later closed_now in
      let (c, q, e, s) =
        call_with_timeout_settles f.now f.later u.permit.0 (λ c. outcome f.error) p u.in_use passes
          u.granting u.permit.1 u.active in
      let told_of = s.breaker ∙ judged-outcome A f.later f.error (Breaker.can_execute f.now b).1 in
      (
        q,
        e,
        Settled-IsUsable u s,
        record {
          total = s.total;
          failures = ap (λ c. CircuitBreaker.failures c) told_of;
          threshold = ap (λ c. CircuitBreaker.threshold c) told_of;
          timeout = ap (λ c. CircuitBreaker.timeout c) told_of;
          last = ap (λ c. CircuitBreaker.last_failure c) told_of;
          state = ap (λ c. CircuitBreaker.state c) told_of ∙ state;
        },
      )

  refuses :
      (timeout last : ℕ) (job : Job A) (q : ProductionPool)
      → q.shutdown ≡ false
      → q.circuit_breaker.state ≡ is_open
      → q.circuit_breaker.last_failure ≡ some last
      → job.now - last ≤ q.circuit_breaker.timeout
      → call_within timeout job q ≡ some (turned_away, q)
  refuses timeout last job q s o l h =
      let (denied, same) = open_refuses q.circuit_breaker job.now last o l h in
      call_with_timeout_refused job.now job.later (job.run timeout) q
        (connection_failed "circuit breaker open") denied
      ∙ ap some (else_of q.shutdown _ _ s)
      ∙ ap (λ b. some (turned_away, record q { circuit_breaker = b })) same

  in_turn-turned_away :
      (timeout last : ℕ) (jobs : List (Job A)) (q : ProductionPool)
      → q.shutdown ≡ false
      → q.circuit_breaker.state ≡ is_open
      → q.circuit_breaker.last_failure ≡ some last
      → All (λ job. Job.now job - last ≤ q.circuit_breaker.timeout) jobs
      → in_turn (call_within timeout) jobs q ≡ some (map (λ job. turned_away) jobs, q)
  unfolding in_turn follow attach
  in_turn-turned_away timeout last [] q s o l h = refl
  in_turn-turned_away timeout last (job ∷ jobs) q s o l (h, hs) =
      rw (refuses timeout last job q s o l h)
        (rw (in_turn-turned_away timeout last jobs q s o l hs) refl)

  -- During an outage: a usable pool whose breaker is closed gets as many calls that fail on every
  -- client as are missing to the threshold, then any calls within the timeout of the breaker.
  -- Each failing call gets its failure, and every call after them is refused by the breaker.
  pub calls_outage :
      (timeout : ℕ) (fs : List Fault) (f : Fault) (jobs : List (Job A)) (p : ProductionPool)
      → IsUsable p
      → p.circuit_breaker.state ≡ closed
      → p.circuit_breaker.failures + suc (length fs) ≡ p.circuit_breaker.threshold
      → p.circuit_breaker.threshold < u64_mod
      → All (λ job. Job.now job - f.later ≤ p.circuit_breaker.timeout) jobs
      → (q : ProductionPool) × (in_turn (call_within timeout) (map broken fs ++ broken f ∷ jobs) p
          ≡ some (map told fs ++ told f ∷ map (λ job. turned_away) jobs, q))
        × IsOut f.later (suc (length fs)) p q
  unfolding in_turn follow attach
  calls_outage timeout [] f jobs p u c k l h =
      let (q, e, v, d) = call_within-Failed timeout f p u c in
      let open_now = d.state ∙ reaches p.circuit_breaker.threshold p.circuit_breaker.failures k l in
      let early = subst (λ t. All (λ job. Job.now job - f.later ≤ t) jobs) (sym d.timeout) h in
      (
        q,
        rw e (rw (in_turn-turned_away timeout f.later jobs q v.in_use open_now d.last early) refl),
        record {
          usable = v;
          state = open_now;
          last_failure = d.last;
          timeout = d.timeout;
          total = d.total;
        },
      )
  calls_outage timeout (x ∷ fs) f jobs p u c k l h =
      let (q, e, v, d) = call_within-Failed timeout x p u c in
      let passing =
        d.state
        ∙ falls_short p.circuit_breaker.threshold p.circuit_breaker.failures (length fs) k l in
      let early = subst (λ t. All (λ job. Job.now job - f.later ≤ t) jobs) (sym d.timeout) h in
      let (r, ran, out) =
        calls_outage timeout fs f jobs q v passing (omega (arith, k, l, d.failures, d.threshold))
          (omega (arith, l, d.threshold)) early in
      (
        r,
        rw e (rw ran refl),
        record {
          usable = out.usable;
          state = out.state;
          last_failure = out.last_failure;
          timeout = out.timeout ∙ d.timeout;
          total = omega (arith, out.total, d.total);
        },
      )
