-- ===== src/Pool/Clients/Batches.antt =====
-- src/pool.rs: `call_batch` of `UdsClientPool` beside `call`.
use xprotocol.Prelude.{ℕ, ◌≡◌, refl, Option, none, some, List, [], ◌∷◌, Bool-cases, inl, inr, ltb}
use xprotocol.Pool.Clients.{
  SharedClient, UdsClientPool, acquire, with_permit, get_or_create_client, make_client, look_again,
  batch_client, call, batch_call,
}

module _ (s : SharedClient) where
  open s use {C, Request, Response}

  get_or_create-batch_client :
      (permits max created : ℕ) (pool : List C)
      → get_or_create_client s
          (λ i q. q)
          (record {
            permits = permits;
            pool = pool;
            max_pool_size = max;
            created_clients = created;
          })
        ≡ batch_client s (record {
          permits = permits;
          pool = pool;
          max_pool_size = max;
          created_clients = created;
        })
  unfolding get_or_create_client make_client look_again batch_client
  get_or_create-batch_client permits max created (c ∷ cs) = refl
  get_or_create-batch_client permits max created [] = elim (Bool-cases (ltb created max)) [
    | inl e ↦ rw e refl
    | inr e ↦ rw e refl
  ]

  -- Where no other call changes the pool while a call sleeps, a request through `call_batch` comes
  -- to the same result, the same pool and the same counts as one through `call`, on every pool.
  pub call-batch_call :
      (request : Request) (p : UdsClientPool s)
      → call s (λ i q. q) request p ≡ batch_call s request p
  unfolding call batch_call
  call-batch_call request p = permitted (acquire s p)
    where
      permitted :
          (o : Option (UdsClientPool s))
          → with_permit s (get_or_create_client s (λ i q. q)) request o
            ≡ with_permit s (batch_client s) request o
      permitted none = refl
      permitted (some q) =
          rw (get_or_create-batch_client q.permits q.max_pool_size q.created_clients q.pool) refl
