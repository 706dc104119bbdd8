-- ===== src/Utils/Waiting.antt =====
-- src/utils.rs: `RateLimiter::acquire`, which tries again every 10 ms.
use xprotocol.Prelude.{
  ℕ, zero, suc, ◌+◌, ◌*◌, ◌≤◌, ◌<◌, ◌≡◌, refl, Bool, true, false, Option, none, some, List, [], ◌∷◌,
  length, retain, ltb, arith, All, Bool-cases, inl, inr, ap, ◌∙◌,
}
use xprotocol.Window.{live}
use xprotocol.Utils.Acquiring.{try_acquire_fields}
use xprotocol.Utils.{RateLimiter, try_acquire}

unfoldable pub acquire_from :
    (RateLimiter → Option (Unit {0}) × RateLimiter)
    → Bool × RateLimiter
    → Option (Unit {0}) × RateLimiter
acquire_from again (true, l) = (some tt, l)
acquire_from again (false, l) = again l

-- The loop over at most so many tries, the i-th at `clock i`: `none` where they are used up.
unfoldable pub acquire : ℕ → (ℕ → ℕ) → RateLimiter → Option (Unit {0}) × RateLimiter
unfolding acquire_from
acquire zero clock l = (none, l)
acquire (suc n) clock l = acquire_from (acquire n (λ i. clock (suc i))) (try_acquire (clock 0) l)

retain-All :
    (p : ℕ → Bool) (bound : ℕ) (ts : List ℕ)
    → All (λ x. x ≤ bound) ts
    → All (λ x. x ≤ bound) (retain p ts)
retain-All p bound [] a = tt
retain-All p bound (x ∷ ts) (h, a) = elim (Bool-cases (p x)) [
  | inl e ↦ rw e (h, retain-All p bound ts a)
  | inr e ↦ rw e (retain-All p bound ts a)
]

-- What is as old as the window is gone.
retain_old :
    (window now start : ℕ) (ts : List ℕ)
    → All (λ x. x ≤ start) ts
    → start + window ≤ now
    → retain (live window now) ts ≡ []
retain_old window now start [] a h = refl
retain_old window now start (x ∷ ts) (k, a) h = ground (arith, retain_old window now start ts a h)

try_refused :
    (now bound : ℕ) (l : RateLimiter)
    → All (λ x. x ≤ bound) l.requests
    → (try_acquire now l).0 ≡ false
    → All (λ x. x ≤ bound) (try_acquire now l).1.requests
unfolding try_acquire
try_refused now bound l a refused =
    elim (Bool-cases (ltb (length (retain (live l.window now) l.requests)) l.max_requests)) [
      | inl room ↦ absurd (cc (rw room at refused))
      | inr full ↦ rw full (retain-All (live l.window now) bound l.requests a)
    ]

try_old :
    (now start : ℕ) (l : RateLimiter)
    → 0 < l.max_requests
    → All (λ x. x ≤ start) l.requests
    → start + l.window ≤ now
    → (try_acquire now l).0 ≡ true
unfolding try_acquire
try_old now start l room a h = rw (retain_old l.window now start l.requests a h) (ground arith)

passed_once :
    (again : RateLimiter → Option (Unit {0}) × RateLimiter) (x : Bool × RateLimiter)
    → x.0 ≡ true
    → (acquire_from again x).0 ≡ some tt
unfolding acquire_from
passed_once again (true, l) e = refl
passed_once again (false, l) e = absurd (cc)

tries_again :
    (again : RateLimiter → Option (Unit {0}) × RateLimiter) (x : Bool × RateLimiter)
    → x.0 ≡ false
    → acquire_from again x ≡ again x.1
unfolding acquire_from
tries_again again (true, l) e = absurd (cc)
tries_again again (false, l) e = refl

-- `acquire` returns. Where the limiter allows at least one request, no request that it has kept is
-- later than `start`, the clock goes on by at least the 10 ms of the sleep from one try to the next,
-- and nobody else asks meanwhile, n + 1 tries are enough, where n sleeps of 10 ms last until the
-- window has passed since `start`.
pub acquire_returns :
    (n start : ℕ) (clock : ℕ → ℕ) (l : RateLimiter)
    → 0 < l.max_requests
    → All (λ x. x ≤ start) l.requests
    → ((i : ℕ) → clock i + 10 ≤ clock (suc i))
    → start + l.window ≤ clock 0 + 10 * n
    → (acquire (suc n) clock l).0 ≡ some tt
unfolding acquire
acquire_returns zero start clock l room a tick h =
    passed_once _ (try_acquire (clock 0) l) (try_old (clock 0) start l room a (omega (arith, h)))
acquire_returns (suc n) start clock l room a tick h =
    elim (Bool-cases (try_acquire (clock 0) l).0) [
      | inl passed ↦ passed_once _ (try_acquire (clock 0) l) passed
      | inr refused ↦
          let (same_window, same_max) = try_acquire_fields (clock 0) l in
          ap (λ x. x.0) (tries_again _ (try_acquire (clock 0) l) refused)
          ∙ acquire_returns n start (λ i. clock (suc i)) (try_acquire (clock 0) l).1
              (omega (arith, room, same_max)) (try_refused (clock 0) start l a refused)
              (λ i. tick (suc i)) (omega (arith, h, tick 0, same_window))
    ]
