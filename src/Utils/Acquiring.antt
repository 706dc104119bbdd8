-- ===== src/Utils/Acquiring.antt =====
-- src/utils.rs: the rate limiter's bound.
use xprotocol.Prelude.{
  ℕ, ◌≤◌, ◌≡◌, ◌∙◌, refl, List, [], ◌∷◌, ◌++◌, length, ltb, ltb→lt, arith, Bool-cases, inl, inr,
  if◌then◌else◌,
}
use xprotocol.Window.{kept, Shows, Shows-admit, Shows-refuse}
use xprotocol.Utils.{RateLimiter, new_limiter, try_acquire}

-- A history of calls of `try_acquire` at some times; the log holds the times of those that passed.
unfoldable pub acquire_at : RateLimiter → List ℕ → List ℕ → RateLimiter × List ℕ
acquire_at l log [] = (l, log)
acquire_at l log (now ∷ ts) =
    let (passed, l') = try_acquire now l in
    acquire_at l' (if passed then log ++ now ∷ [] else log) ts

abbrev pub Ordered : ℕ → List ℕ → Type 0
Ordered last [] = Unit
Ordered last (now ∷ ts) = (last ≤ now) × Ordered now ts

abbrev pub end : ℕ → List ℕ → ℕ
end last [] = last
end last (now ∷ ts) = end now ts

try_acquire-Shows :
    (l : RateLimiter) (last now : ℕ) (log : List ℕ)
    → last ≤ now
    → Shows l.window l.max_requests last l.requests log
    → Shows l.window l.max_requests now
        (try_acquire now l).1.requests
        (if (try_acquire now l).0 then log ++ now ∷ [] else log)
unfolding try_acquire
try_acquire-Shows l last now log h v =
    elim (Bool-cases (ltb (length (kept l.window now l.requests)) l.max_requests)) [
      | inl room ↦ rw room (
          Shows-admit l.window l.max_requests last now l.requests log h
            (ltb→lt (length (kept l.window now l.requests)) l.max_requests room) v)
      | inr full ↦ rw full (Shows-refuse l.window l.max_requests last now l.requests log h v)
    ]

pub try_acquire_fields :
    (now : ℕ) (l : RateLimiter)
    → ((try_acquire now l).1.window ≡ l.window)
      × ((try_acquire now l).1.max_requests ≡ l.max_requests)
unfolding try_acquire
try_acquire_fields now l = ground arith

acquire_at-Shows :
    (w m : ℕ) (l : RateLimiter) (last : ℕ) (log ts : List ℕ)
    → Ordered last ts
    → l.window ≡ w
    → l.max_requests ≡ m
    → Shows w m last l.requests log
    → Shows w m (end last ts) (acquire_at l log ts).0.requests (acquire_at l log ts).1
unfolding acquire_at
acquire_at-Shows w m l last log [] o ew em v = v
acquire_at-Shows w m l last log (now ∷ ts) o ew em v =
    let fields = try_acquire_fields now l in
    acquire_at-Shows w m (try_acquire now l).1 now
      (if (try_acquire now l).0 then log ++ now ∷ [] else log) ts o.1 (fields.0 ∙ ew)
      (fields.1 ∙ em) (rw (← ew, ← em) (try_acquire-Shows l last now log o.0 (rw (ew, em) v)))

-- From a new limiter, after any calls of `try_acquire` at times that do not go back, those that
-- passed and lie in a window are at most `max_requests`, for every window that ends at the last
-- call or later.
pub acquired-le-max_requests :
    (max_requests window start now : ℕ) (ts : List ℕ)
    → Ordered start ts
    → end start ts ≤ now
    → length (kept window now (acquire_at (new_limiter max_requests window) [] ts).1) ≤ max_requests
unfolding new_limiter
acquired-le-max_requests max_requests window start now ts o h =
    let shows : Shows window max_requests (end start ts) _ _ =
      acquire_at-Shows window max_requests (new_limiter max_requests window) start [] ts o refl refl
        (record { same = λ t k. refl; few = λ t k. omega arith }) in
    shows.few now h
