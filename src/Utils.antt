-- ===== src/Utils.antt =====
-- src/utils.rs: the queue of dead letters and the shared rate limiter. `now` is what the clock gives.
pub mod Newest
pub mod Acquiring
pub mod Waiting
pub mod Retrying
pub mod Queue
pub mod Counters
mod Tests
use xprotocol.Prelude.{
  ℕ, ◌-◌, ◌+◌, String, Bool, true, false, Option, none, some, List, [], ◌∷◌, ◌++◌, length, retain,
  ltb, leb, ◌==◌, if◌then◌else◌,
}
use xprotocol.Protocol.{ServiceRequest}
use xprotocol.Window.{live}

pub record DeadLetter (Value : Type 0) : Type 0 where
  pub request : ServiceRequest Value
  pub error : String
  pub timestamp : ℕ
  pub retry_count : ℕ

-- the queue, its front first
pub record DeadLetterQueue (Value : Type 0) : Type 0 where
  pub queue : List (DeadLetter Value)
  pub max_size : ℕ

-- `pop_front`, for its effect
abbrev pub rest {ℓ} : {A : Type ℓ} → List A → List A
rest [] = []
rest (x ∷ xs) = xs

abbrev pub front {ℓ} : {A : Type ℓ} → List A → Option A
front [] = none
front (x ∷ xs) = some x

module _ {Value : Type 0} where
  unfoldable pub new_queue : ℕ → DeadLetterQueue Value
  new_queue max_size = record { queue = []; max_size = max_size }

  unfoldable pub dead_letter : ℕ → ServiceRequest Value → String → DeadLetter Value
  dead_letter now request e = record {
    request = request;
    error = e;
    timestamp = now;
    retry_count = 0;
  }

  unfoldable pub push :
      ℕ → ServiceRequest Value → String → DeadLetterQueue Value → DeadLetterQueue Value
  unfolding dead_letter
  push now request e q =
      let room = if leb q.max_size (length q.queue) then rest q.queue else q.queue in
      record q { queue = room ++ dead_letter now request e ∷ [] }

  unfoldable pub pop : DeadLetterQueue Value → Option (DeadLetter Value) × DeadLetterQueue Value
  pop q = (front q.queue, record q { queue = rest q.queue })

  abbrev pub get_all : DeadLetterQueue Value → List (DeadLetter Value)
  get_all q = q.queue

  abbrev pub queue_len : DeadLetterQueue Value → ℕ
  queue_len q = length q.queue

  abbrev pub is_empty : DeadLetterQueue Value → Bool
  is_empty q = length q.queue == 0

  unfoldable pub clear : DeadLetterQueue Value → DeadLetterQueue Value
  clear q = record q { queue = [] }

pub record RateLimiter : Type 0 where
  pub max_requests : ℕ
  pub window : ℕ
  pub requests : List ℕ

unfoldable pub new_limiter : ℕ → ℕ → RateLimiter
new_limiter max_requests window = record {
  max_requests = max_requests;
  window = window;
  requests = [];
}

unfoldable pub try_acquire : ℕ → RateLimiter → Bool × RateLimiter
try_acquire now l =
    let requests = retain (live l.window now) l.requests in
    if ltb (length requests) l.max_requests
    then (true, record l { requests = requests ++ now ∷ [] })
    else (false, record l { requests = requests })

unfoldable pub available : ℕ → RateLimiter → ℕ × RateLimiter
available now l =
    let requests = retain (live l.window now) l.requests in
    (l.max_requests - length requests, record l { requests = requests })
