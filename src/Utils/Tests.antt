-- ===== src/Utils/Tests.antt =====
-- src/utils.rs: the theorems at concrete letters and times.
use xprotocol.Prelude.{String, ◌≡◌, ◌+◌, ◌*◌, refl, some, [], ◌∷◌, arith}
use xprotocol.Protocol.{ServiceRequest}
use xprotocol.Client.Uds.Memory.{add}
use xprotocol.Utils.{RateLimiter, new_limiter, try_acquire, new_queue, dead_letter}
use xprotocol.Utils.Newest.{push_all, push_all-new_queue}
use xprotocol.Utils.Acquiring.{acquire_at}
use xprotocol.Utils.Waiting.{acquire, acquire_returns}

-- the third of these calls is refused
acquired_times : (acquire_at (new_limiter 2 10) [] (1 ∷ 2 ∷ 3 ∷ 12 ∷ [])).1 ≡ 1 ∷ 2 ∷ 12 ∷ []
unfolding acquire_at new_limiter try_acquire
acquired_times = refl

-- one request in 25 ms, of which one came at 3
abbrev full : RateLimiter
full = record { max_requests = 1; window = 25; requests = 3 ∷ [] }

acquire_returns_example : (acquire 4 (λ i. 4 + 10 * i) full).0 ≡ some tt
acquire_returns_example =
    acquire_returns 3 3 (λ i. 4 + 10 * i) full (omega arith) (omega arith, tt) (λ i. omega arith)
      (omega arith)

abbrev letter : String → ServiceRequest String
letter id = record add { request_id = id }

push_all-new_queue_example :
    (push_all (new_queue 2) (
      (1, letter "a", "refused")
      ∷ (2, letter "b", "refused")
      ∷ (5, letter "c", "timeout")
      ∷ [])).queue
    ≡ dead_letter 2 (letter "b") "refused" ∷ dead_letter 5 (letter "c") "timeout" ∷ []
push_all-new_queue_example =
    push_all-new_queue 2
      ((1, letter "a", "refused") ∷ (2, letter "b", "refused") ∷ (5, letter "c", "timeout") ∷ [])
      (omega arith)
