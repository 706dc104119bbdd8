-- ===== src/Pool/Clients/Keeping.antt =====
-- src/pool.rs with src/client.rs: the clients that `UdsClientPool` keeps.
use xprotocol.Prelude.{
  ℕ, zero, suc, Bool, true, false, Option, none, some, List, [], ◌∷◌, All, length, ltb,
  if◌then◌else◌,
}
use xprotocol.Error.{Result}
use xprotocol.Protocol.{ServiceRequest}
use xprotocol.Client.Uds.{Link, ClientJson, Dialled}
use xprotocol.Client.Uds.Sound.{IsSound, call-IsSound, new-IsSound}
use xprotocol.Pool.Clients.{
  SharedClient, shared_uds, UdsClientPool, with_max_pool_size, pop_from, pop_client, count_created,
  undo_created, popped_or, look_again, make_client, get_or_create_client, should_pool,
  return_client, use_client, with_permit, call,
}

module _ (s : SharedClient) where
  open s use {Request, Response}

  -- a call that waits has changed nothing
  abbrev pub after : UdsClientPool s → Option (Result Response × UdsClientPool s) → UdsClientPool s
  after p none = p
  after p (some (r, q)) = q

  -- calls one after the other
  abbrev pub run :
      (ℕ → UdsClientPool s → UdsClientPool s) → UdsClientPool s → List Request → UdsClientPool s
  run meanwhile p [] = p
  run meanwhile p (r ∷ rs) = run meanwhile (after p (call s meanwhile r p)) rs

-- A predicate on clients that a new client has and that calls preserve.
module _ (s : SharedClient) (P : s.C → Type 0) (fresh : P s.fresh)
    (kept : (r : s.Request) (c : s.C) → P c → P (s.call r c).1)
    (meanwhile : ℕ → UdsClientPool s → UdsClientPool s)
    (elsewhere : (i : ℕ) (p : UdsClientPool s) → All P p.pool → All P (meanwhile i p).pool) where
  open s use {C, Request, Response}

  abbrev Got : Option C × UdsClientPool s → Type 0
  Got (none, p) = All P p.pool
  Got (some c, p) = P c × All P p.pool

  abbrev Has : C × UdsClientPool s → Type 0
  Has (c, p) = P c × All P p.pool

  pop_from-Got :
      (cs : List C) (p : UdsClientPool s) → All P cs → All P p.pool → Got (pop_from s cs p)
  pop_from-Got [] p h k = k
  pop_from-Got (c ∷ cs) p (h, hs) k = (h, hs)

  popped_or-Has :
      (make : UdsClientPool s → C × UdsClientPool s) (x : Option C × UdsClientPool s)
      → Got x
      → ((p : UdsClientPool s) → All P p.pool → Has (make p))
      → Has (popped_or s make x)
  popped_or-Has make (none, p) h k = k p h
  popped_or-Has make (some c, p) h k = h

  look_again-Has : (n : ℕ) (p : UdsClientPool s) → All P p.pool → Has (look_again s meanwhile n p)
  unfolding look_again
  look_again-Has zero p h = (fresh, h)
  look_again-Has (suc n) p h =
      popped_or-Has (λ q. look_again s meanwhile n (meanwhile n q)) (pop_client s p)
        (pop_from-Got p.pool p h h) (λ q k. look_again-Has n (meanwhile n q) (elsewhere n q k))

  make_client-Has : (p : UdsClientPool s) → All P p.pool → Has (make_client s meanwhile p)
  unfolding make_client
  make_client-Has p h = on_test (ltb p.created_clients p.max_pool_size)
    where
      on_test :
          (b : Bool)
          → Has (
              if b
              then (s.fresh, count_created s p)
              else look_again s meanwhile 3 (undo_created s (count_created s p)))
      on_test true = (fresh, h)
      on_test false = look_again-Has 3 (undo_created s (count_created s p)) h

  return_client-All :
      (c : C) (r : Result Response) (p : UdsClientPool s)
      → P c
      → All P p.pool
      → All P (return_client s c r p).pool
  unfolding return_client
  return_client-All c r p h hs = on_tests (should_pool s r) (ltb (length p.pool) p.max_pool_size)
    where
      on_tests :
          (a b : Bool)
          → All P (if a then if b then record p { pool = c ∷ p.pool } else p else p).pool
      on_tests true true = (h, hs)
      on_tests true false = hs
      on_tests false b = hs

  abbrev Keeps : Option (Result Response × UdsClientPool s) → Type 0
  Keeps none = Unit
  Keeps (some (r, p)) = All P p.pool

  use_client-All :
      (request : Request) (x : C × UdsClientPool s) → Has x → All P (use_client s request x).1.pool
  use_client-All request (c, p) (h, hs) =
      return_client-All (s.call request c).1 (s.call request c).0 p (kept request c h) hs

  call-All :
      (request : Request) (p : UdsClientPool s)
      → All P p.pool
      → All P (after s p (call s meanwhile request p)).pool
  unfolding call get_or_create_client
  call-All request p h = on_permits p.permits
    where
      on_permits :
          (n : ℕ)
          → All P
              (after s p (
                with_permit s
                  (get_or_create_client s meanwhile)
                  request
                  (elim n [ zero ↦ none | suc m ↦ some (record p { permits = m }) ]))).pool
      on_permits zero = h
      on_permits (suc m) =
          use_client-All request (get_or_create_client s meanwhile (record p { permits = m })) (
            popped_or-Has (make_client s meanwhile) (pop_client s (record p { permits = m }))
              (pop_from-Got p.pool (record p { permits = m }) h h) make_client-Has)

  run-All :
      (p : UdsClientPool s) (rs : List Request) → All P p.pool → All P (run s meanwhile p rs).pool
  run-All p [] h = h
  run-All p (r ∷ rs) h = run-All (after s p (call s meanwhile r p)) rs (call-All r p h)

-- After any calls through a new pool of `UdsClient`s, whatever they come to: each client in the pool
-- says that it is connected exactly where it has a stream, and then it has a session. The calls of
-- others, while one sleeps, are taken to keep this of the pooled clients.
pub pooled-IsSound :
    (l : Link) (j : ClientJson)
    (meanwhile : ℕ → UdsClientPool (shared_uds l j) → UdsClientPool (shared_uds l j))
    (max_concurrent max : ℕ) (rs : List (Dialled l × ServiceRequest j.Value))
    → ((i : ℕ) (p : UdsClientPool (shared_uds l j))
        → All IsSound p.pool
        → All IsSound (meanwhile i p).pool)
    → All IsSound
        (run
          (shared_uds l j)
          meanwhile
          (with_max_pool_size (shared_uds l j) max_concurrent max)
          rs).pool
pooled-IsSound l j meanwhile max_concurrent max rs elsewhere =
    run-All (shared_uds l j) IsSound (new-IsSound l j) (λ r c h. call-IsSound l j r.0 r.1 c h)
      meanwhile elsewhere (with_max_pool_size (shared_uds l j) max_concurrent max) rs tt
