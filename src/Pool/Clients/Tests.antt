-- ===== src/Pool/Clients/Tests.antt =====
-- src/pool.rs: the theorems of the client pools, over clients that count their calls, and on client
-- pools of `UdsClient`.
use xprotocol.Prelude.{ℕ, suc, ◌≡◌, refl, none, some, [], ◌∷◌, arith}
use xprotocol.Error.{timeout, ok, err}
use xprotocol.Pool.Clients.{
  SharedClient, UdsClientPool, with_max_pool_size, new_topics, pooled_count,
}
use xprotocol.Pool.Clients.Returning.{calls, calls_lose_clients}
use xprotocol.Pool.Clients.Topics
use xprotocol.Pool.Clients.Topics.{client_of, serve, run-serve}

-- a client that counts its calls and answers with the request
abbrev counting_client : SharedClient
counting_client = record {
  C = ℕ;
  Request = ℕ;
  Response = ℕ;
  fresh = 0;
  call = λ r c. (ok r, suc c);
  close = λ c. c;
}

abbrev slow_client : SharedClient
slow_client = record counting_client { call = λ r c. (err timeout, suc c) }

calls_lose_clients_example :
    (p : UdsClientPool slow_client) × (calls slow_client
        (λ i q. q)
        7
        3
        (with_max_pool_size slow_client 2 4)
      ≡ some p)
    × (p.pool ≡ [])
    × (pooled_count slow_client p ≡ 3)
calls_lose_clients_example =
    calls_lose_clients slow_client (λ i q. q) 7 1 4 3 refl (omega arith) (omega arith)

run-serve_example :
    client_of counting_client "t" (
      Topics.run counting_client
        (λ i q. q)
        (new_topics counting_client 2)
        ((some "t", 1) ∷ (none, 2) ∷ (some "u", 3) ∷ (some "t", 4) ∷ []))
    ≡ serve counting_client "t"
        (client_of counting_client "t" (new_topics counting_client 2))
        ((some "t", 1) ∷ (none, 2) ∷ (some "u", 3) ∷ (some "t", 4) ∷ [])
run-serve_example =
    run-serve counting_client (λ i q. q) "t"
      ((some "t", 1) ∷ (none, 2) ∷ (some "u", 3) ∷ (some "t", 4) ∷ [])
      (new_topics counting_client 2) refl
