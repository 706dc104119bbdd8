-- ===== src/Pool/Production/Sequential.antt =====
-- src/pool.rs: `ProductionPool::call_with_timeout` from its first line to its last, while no other
-- call runs.
use xprotocol.Prelude.{
  ℕ, suc, ◌<◌, ◌≡◌, refl, ap, ◌∙◌, false, Option, none, some, List, [], ◌∷◌, u64_mod, fetch_add,
  arith, if◌then◌else◌,
}
use xprotocol.Error.{ProtocolError, server, timeout, Result, ok, err}
use xprotocol.Breaker
use xprotocol.Breaker.{CircuitBreaker}
use xprotocol.Pool.Production.{
  ProductionPool, Outcome, answered, failed, timed_out, enter, acquire, take_client, give_back,
  finish, count_entry,
}

-- the pool when the call holds its permit
abbrev held : ℕ → ProductionPool → ℕ → ProductionPool
held now p n = record p {
  circuit_breaker = (Breaker.can_execute now p.circuit_breaker).1;
  metrics = count_entry p.metrics;
  permits = n;
}

-- the clients in the pool when a call is over that found none of them in use: one is made where
-- there was none
abbrev pub clients_after : ℕ → List ℕ → List ℕ
clients_after next [] = next ∷ []
clients_after next (c ∷ cs) = c ∷ cs

give_back-take_client :
    (p : ProductionPool) (cs : List ℕ)
    → p.client_pool ≡ cs
    → (give_back (take_client p).0 (take_client p).1).client_pool ≡ clients_after p.next_client cs
unfolding give_back take_client
give_back-take_client p [] e = rw e refl
give_back-take_client p (c ∷ cs) e = rw e refl

module _ {A : Type 0} where
  -- with the client: run it, put it back, account for what came of it
  run_client : ℕ → (ℕ → Outcome A) → ℕ × ProductionPool → Result A × ProductionPool
  run_client now call (c, p) = finish now (call c) (give_back c p)

  with_permit : ℕ → (ℕ → Outcome A) → Result (Unit {0}) × ProductionPool → Result A × ProductionPool
  unfolding run_client
  with_permit now call (ok _, p) = run_client now call (take_client p)
  with_permit now call (err e, p) = (err e, p)

  after_entry :
      ℕ → (ℕ → Outcome A) → Result (Unit {0}) × ProductionPool → Option (Result A × ProductionPool)
  unfolding with_permit
  after_entry now call (ok _, p) = elim (acquire p) [
    | none ↦ none
    | some x ↦ some (with_permit now call x)
  ]
  after_entry now call (err e, p) = some (err e, p)

  -- `none`: the call waits for a permit. `call` is what each client would give; the call starts
  -- at the first time and ends at the second.
  unfoldable pub call_with_timeout :
      ℕ → ℕ → (ℕ → Outcome A) → ProductionPool → Option (Result A × ProductionPool)
  unfolding after_entry
  call_with_timeout now later call p = after_entry later call (enter now p)

  abbrev pub to_result : Outcome A → Result A
  to_result (answered a) = ok a
  to_result (failed e) = err e
  to_result timed_out = err timeout

  -- what the outcome of a call does to the breaker
  abbrev pub judged : ℕ → Outcome A → CircuitBreaker → CircuitBreaker
  judged now (answered a) b = Breaker.record_success b
  judged now (failed e) b = Breaker.record_failure now b
  judged now timed_out b = Breaker.record_failure now b

  -- What a finished call has left behind, beside its result.
  pub record Settled (now later : ℕ) (o : Outcome A) (p q : ProductionPool) : Type 0 where
    pub permits : q.permits ≡ p.permits
    pub active : q.metrics.active_requests ≡ p.metrics.active_requests
    pub total : q.metrics.total_requests ≡ fetch_add p.metrics.total_requests 1
    pub breaker : q.circuit_breaker ≡ judged later o (Breaker.can_execute now p.circuit_breaker).1
    pub clients : q.client_pool ≡ clients_after p.next_client p.client_pool
    pub flags : (q.shutdown ≡ p.shutdown) × (q.semaphore_closed ≡ p.semaphore_closed)

  finish_result : (now : ℕ) (o : Outcome A) (p : ProductionPool) → (finish now o p).0 ≡ to_result o
  unfolding finish
  finish_result now (answered a) p = refl
  finish_result now (failed e) p = refl
  finish_result now timed_out p = refl

  call_runs :
      (now later : ℕ) (call : ℕ → Outcome A) (p h : ProductionPool)
      → enter now p ≡ (ok tt, h)
      → (k : ProductionPool) → acquire h ≡ some (ok tt, k)
      → call_with_timeout now later call p
        ≡ some
            (finish later (call (take_client k).0) (give_back (take_client k).0 (take_client k).1))
  unfolding call_with_timeout
  call_runs now later call p h e k f = rw (e, after_entry) (rw f)

  call_settles :
      (now later n : ℕ) (o : Outcome A) (p k : ProductionPool)
      → p.permits ≡ suc n
      → p.metrics.active_requests < u64_mod
      → k ≡ held now p n
      → (give_back (take_client k).0 (take_client k).1).client_pool
        ≡ clients_after p.next_client p.client_pool
      → Settled now later o p (finish later o (give_back (take_client k).0 (take_client k).1)).1
  unfolding finish take_client give_back count_entry
  call_settles now later n (answered a) p k e l h g = ground arith
  call_settles now later n (failed x) p k e l h g = ground arith
  call_settles now later n timed_out p k e l h g = ground arith

  -- A call that finds the pool open, the breaker willing and a permit free ends: it returns what
  -- the call of some client came to, a timeout as the error `Timeout`; it has counted one request,
  -- the permits and the active requests are what they were, and the breaker has been told of a
  -- success or of a failure, at the time of the end. The client is back in the pool, with those
  -- that were there.
  pub call_with_timeout_settles :
      (now later n : ℕ) (call : ℕ → Outcome A) (p : ProductionPool)
      → p.shutdown ≡ false
      → (Breaker.can_execute now p.circuit_breaker).0 ≡ ok tt
      → p.semaphore_closed ≡ false
      → p.permits ≡ suc n
      → p.metrics.active_requests < u64_mod
      → (c : ℕ) × (q : ProductionPool) × (call_with_timeout now later call p
          ≡ some (to_result (call c), q))
        × Settled now later (call c) p q
  call_with_timeout_settles now later n call p s b k e l =
      let h = held now p n in
      let x : ProductionPool = record h { permits = suc n } in
      let (c, taken) = take_client h in
      (
        c,
        (finish later (call c) (give_back c taken)).1,
        call_runs now later call p x (unfold enter in ground arith) h
              (unfold acquire in ground arith)
            ∙ ap (λ r. some (r, (finish later (call c) (give_back c taken)).1))
                (finish_result later (call c) (give_back c taken)),
        call_settles now later n (call c) p h e l refl (give_back-take_client h p.client_pool refl),
      )

  -- A pool that shuts down refuses every call, and a breaker that is open refuses with the
  -- breaker's error; in both cases nothing is counted and no client is touched.
  pub call_with_timeout_refused :
      (now later : ℕ) (call : ℕ → Outcome A) (p : ProductionPool) (e : ProtocolError)
      → (Breaker.can_execute now p.circuit_breaker).0 ≡ err e
      → call_with_timeout now later call p
        ≡ some (
            if p.shutdown then (err (server "pool is shutting down"), p) else (
              err e,
              record p { circuit_breaker = (Breaker.can_execute now p.circuit_breaker).1 },
            ))
  unfolding call_with_timeout enter
  call_with_timeout_refused now later call p e h = ground arith
