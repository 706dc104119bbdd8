-- ===== src/Pool/Clients/Returning.antt =====
-- src/pool.rs: which clients `UdsClientPool` keeps.
use xprotocol.Prelude.{
  ℕ, zero, suc, ◌+◌, ◌≤◌, ◌<◌, ◌≡◌, refl, ◌∙◌, Bool, true, false, Option, none, some, List, [], ◌∷◌,
  length, u64_mod, fetch_add, lt→ltb, ltb→lt, ap, sym, subst, arith, ltb, if◌then◌else◌,
}
use xprotocol.Error.{timeout, Result, err}
use xprotocol.Pool.Clients.{
  SharedClient, UdsClientPool, with_max_pool_size, acquire, pop_client, pop_from, count_created,
  undo_created, return_client, release, close, should_pool, settle, call, get_or_create_client,
  make_client, pooled_count,
}

module _ (s : SharedClient) where
  open s use {C, Request, Response}

  -- What calls do to the pool, each under one lock or with one atomic operation. A list of them is
  -- the calls of any number of tasks, in the order in which these happen.
  pub data Operation : Type 0 where
    acquiring popping counting undoing releasing closing : Operation
    returning : C → Result Response → Operation

  abbrev pub acquired : Option (UdsClientPool s) → UdsClientPool s → UdsClientPool s
  acquired none p = p
  acquired (some q) p = q

  abbrev pub step : Operation → UdsClientPool s → UdsClientPool s
  step acquiring p = acquired (acquire s p) p
  step popping p = (pop_client s p).1
  step counting p = count_created s p
  step undoing p = undo_created s p
  step releasing p = release s p
  step closing p = close s p
  step (returning c r) p = return_client s c r p

  abbrev pub run : UdsClientPool s → List Operation → UdsClientPool s
  run p [] = p
  run p (o ∷ os) = run (step o p) os

  -- a pool of a given maximum that is not above it
  record Within (max : ℕ) (p : UdsClientPool s) : Type 0 where
    pub maximum : p.max_pool_size ≡ max
    pub bound : length p.pool ≤ max

  step-Within :
      (max : ℕ) (o : Operation) (p : UdsClientPool s) → Within max p → Within max (step o p)
  unfolding return_client close
  step-Within max acquiring p h = on_permits p.permits
    where
      on_permits :
          (n : ℕ)
          → Within max
              (acquired (elim n [ zero ↦ none | suc m ↦ some (record p { permits = m }) ]) p)
      on_permits zero = h
      on_permits (suc m) = record { maximum = h.maximum; bound = h.bound }
  step-Within max popping p h = on_pool p.pool h.bound
    where
      on_pool : (cs : List C) → length cs ≤ max → Within max (pop_from s cs p).1
      on_pool [] k = h
      on_pool (c ∷ ds) k = record { maximum = h.maximum; bound = omega (arith, k) }
  step-Within max counting p h = record { maximum = h.maximum; bound = h.bound }
  step-Within max undoing p h = record { maximum = h.maximum; bound = h.bound }
  step-Within max releasing p h = record { maximum = h.maximum; bound = h.bound }
  step-Within max closing p h = record { maximum = h.maximum; bound = omega arith }
  step-Within max (returning c r) p h =
      on_tests (should_pool s r) (ltb (length p.pool) p.max_pool_size) refl
    where
      on_tests :
          (b t : Bool)
          → ltb (length p.pool) p.max_pool_size ≡ t
          → Within max (if b then if t then record p { pool = c ∷ p.pool } else p else p)
      on_tests true true e = record {
        maximum = h.maximum;
        bound = omega (arith, ltb→lt (length p.pool) p.max_pool_size e, h.maximum);
      }
      on_tests true false e = h
      on_tests false t e = h

  run-Within :
      (max : ℕ) (os : List Operation) (p : UdsClientPool s) → Within max p → Within max (run p os)
  run-Within max [] p h = h
  run-Within max (o ∷ os) p h = run-Within max os (step o p) (step-Within max o p h)

  -- However calls and `close` interleave, the pool never holds more than `max_pool_size` clients.
  pub run-le-max_pool_size :
      (max_concurrent max : ℕ) (os : List Operation)
      → length (run (with_max_pool_size s max_concurrent max) os).pool ≤ max
  run-le-max_pool_size max_concurrent max os =
      let h =
        run-Within max os (with_max_pool_size s max_concurrent max)
          (record { maximum = refl; bound = omega arith }) in
      h.bound

  abbrev pub then_calls :
      (UdsClientPool s → Option (UdsClientPool s))
      → Option (Result Response × UdsClientPool s)
      → Option (UdsClientPool s)
  then_calls more none = none
  then_calls more (some (r, p)) = more p

  -- one request, so many times, one call after the other
  abbrev pub calls :
      (ℕ → UdsClientPool s → UdsClientPool s)
      → Request
      → ℕ
      → UdsClientPool s
      → Option (UdsClientPool s)
  calls meanwhile request zero p = some p
  calls meanwhile request (suc k) p =
      then_calls (calls meanwhile request k) (call s meanwhile request p)

  add_zero : (n : ℕ) → n + 0 ≡ n
  add_zero n = omega arith

  add_suc : (n k : ℕ) → suc n + k ≡ n + suc k
  add_suc n k = omega arith

  abbrev pub emptied : ℕ → ℕ → ℕ → UdsClientPool s
  emptied permits max created = record {
    permits = permits;
    pool = [];
    max_pool_size = max;
    created_clients = created;
  }

  settle_timeout :
      (x : Result Response × C) (p : UdsClientPool s)
      → x.0 ≡ err timeout
      → settle s x p ≡ (err timeout, release s p)
  unfolding return_client
  settle_timeout (r, c) p h =
      subst (λ t. settle s (t, c) p ≡ (err timeout, release s p)) (sym h) refl

  call-emptied :
      (meanwhile : ℕ → UdsClientPool s → UdsClientPool s) (request : Request) (n max created : ℕ)
      → (s.call request s.fresh).0 ≡ err timeout
      → created < max
      → max < u64_mod
      → call s meanwhile request (emptied (suc n) max created)
        ≡ some (err timeout, emptied (suc n) max (suc created))
  unfolding call get_or_create_client make_client return_client
  call-emptied meanwhile request n max created fails less fits =
      let counted : fetch_add created 1 ≡ suc created = omega (arith, less, fits) in
      rw (lt→ltb created max less) (
        ap some
          (settle_timeout (s.call request s.fresh) (count_created s (emptied n max created)) fails)
        ∙ rw counted refl)

  calls-emptied :
      (meanwhile : ℕ → UdsClientPool s → UdsClientPool s) (request : Request) (n max k created : ℕ)
      → (s.call request s.fresh).0 ≡ err timeout
      → created + k ≤ max
      → max < u64_mod
      → calls meanwhile request k (emptied (suc n) max created)
        ≡ some (emptied (suc n) max (created + k))
  calls-emptied meanwhile request n max zero created fails less fits = rw (add_zero created) refl
  calls-emptied meanwhile request n max (suc k) created fails less fits =
      rw (call-emptied meanwhile request n max created fails (omega (arith, less)) fits) (
        calls-emptied meanwhile request n max k (suc created) fails (omega (arith, less)) fits
        ∙ rw (add_suc created k) refl)

  -- A call that times out loses its client and keeps its count: after `k` of them, one after the
  -- other, on a new pool, where `k` is at most its maximum, no client is pooled, and
  -- `pooled_count` says `k`.
  pub calls_lose_clients :
      (meanwhile : ℕ → UdsClientPool s → UdsClientPool s) (request : Request) (n max k : ℕ)
      → (s.call request s.fresh).0 ≡ err timeout
      → k ≤ max
      → max < u64_mod
      → (p : UdsClientPool s) × (calls meanwhile request k (with_max_pool_size s (suc n) max)
          ≡ some p)
        × (p.pool ≡ [])
        × (pooled_count s p ≡ k)
  calls_lose_clients meanwhile request n max k fails less fits = (
    emptied (suc n) max (0 + k),
    calls-emptied meanwhile request n max k 0 fails (omega (arith, less)) fits,
    refl,
    omega arith,
  )
