-- ===== src/Auth/Limiter.antt =====
-- src/auth.rs: `RateLimiter`, a sliding window for each client.
use text.Mathlib.TextEquality.{eq_iff}
use xprotocol.Prelude.{
  ℕ, ◌-◌, ◌≤◌, ◌<◌, ◌≡◌, refl, sym, ◌∙◌, String, Bool, true, false, Option, none, some, List, [],
  ◌∷◌, ◌++◌, length, retain, ltb, ltb→lt, arith, str_eq, if◌then◌else◌, Bool-cases, inl, inr,
}
use xprotocol.Prelude.Dict.{Dict, get, insert, remove, get-insert, get-remove}
use xprotocol.Window.{live, kept, Shows, Shows-admit, Shows-refuse, Shows-later}

pub record RateLimiter : Type 0 where
  pub max_requests : ℕ
  pub window : ℕ
  pub requests : Dict (List ℕ)

unfoldable pub new : ℕ → ℕ → RateLimiter
new max_requests window = record { max_requests = max_requests; window = window; requests = [] }

-- `entry(..).or_default()`
abbrev pub or_empty : Option (List ℕ) → List ℕ
or_empty none = []
or_empty (some ts) = ts

unfoldable pub check : ℕ → String → RateLimiter → Bool × RateLimiter
check now client_id l =
    let valid = retain (live l.window now) (or_empty (get client_id l.requests)) in
    if ltb (length valid) l.max_requests
    then (true, record l { requests = insert client_id (valid ++ now ∷ []) l.requests })
    else (false, record l { requests = insert client_id valid l.requests })

-- `saturating_sub` is the subtraction that stops at 0
unfoldable pub remaining : ℕ → String → RateLimiter → ℕ
remaining now client_id l = elim (get client_id l.requests) [
  | none ↦ l.max_requests
  | some ts ↦ l.max_requests - length (retain (live l.window now) ts)
]

unfoldable pub reset : String → RateLimiter → RateLimiter
reset client_id l = record l { requests = remove client_id l.requests }

-- A call of `check` passes exactly when `remaining` at that time is positive.
pub check-remaining :
    (now : ℕ) (client_id : String) (l : RateLimiter)
    → (check now client_id l).0 ≡ ltb 0 (remaining now client_id l)
unfolding check remaining
check-remaining now client_id l = ground arith

-- After `reset` the client has its whole allowance, and every other client what it had.
pub remaining-reset :
    (now : ℕ) (client_id other : String) (l : RateLimiter)
    → remaining now other (reset client_id l)
      ≡ (if str_eq client_id other then l.max_requests else remaining now other l)
unfolding remaining reset
remaining-reset now client_id other l = ground (arith, get-remove client_id other l.requests)

-- A history of calls, each with its time and client; the log holds the times at which the calls
-- of one client passed.
unfoldable pub run : String → RateLimiter → List ℕ → List (ℕ × String) → RateLimiter × List ℕ
run who l log [] = (l, log)
run who l log ((now, client_id) ∷ calls) =
    let (passed, l') = check now client_id l in
    run who l' (if str_eq client_id who then (if passed then log ++ now ∷ [] else log) else log)
      calls

-- The times do not go back, from `last` on.
abbrev pub Ordered : ℕ → List (ℕ × String) → Type 0
Ordered last [] = Unit
Ordered last ((now, client_id) ∷ calls) = (last ≤ now) × Ordered now calls

abbrev pub end : ℕ → List (ℕ × String) → ℕ
end last [] = last
end last ((now, client_id) ∷ calls) = end now calls

-- the times that are kept for a client
abbrev pub stored : String → RateLimiter → List ℕ
stored who l = or_empty (get who l.requests)

check_passed :
    (now : ℕ) (client_id : String) (l : RateLimiter)
    → (check now client_id l).0
      ≡ ltb (length (kept l.window now (stored client_id l))) l.max_requests
unfolding check
check_passed now client_id l = ground arith

check_fields :
    (now : ℕ) (client_id : String) (l : RateLimiter)
    → ((check now client_id l).1.window ≡ l.window)
      × ((check now client_id l).1.max_requests ≡ l.max_requests)
unfolding check
check_fields now client_id l = ground arith

stored-check :
    (who : String) (now : ℕ) (client_id : String) (l : RateLimiter)
    → stored who (check now client_id l).1 ≡ (
        if str_eq client_id who
        then (if (check now client_id l).0
            then kept l.window now (stored client_id l) ++ now ∷ []
            else kept l.window now (stored client_id l))
        else stored who l)
unfolding check
stored-check who now client_id l =
    let valid = kept l.window now (stored client_id l) in
    ground (
      arith,
      get-insert client_id who valid l.requests,
      get-insert client_id who (valid ++ now ∷ []) l.requests,
    )

abbrev next_log : String → ℕ → String → RateLimiter → List ℕ → List ℕ
next_log who now client_id l log =
    if str_eq client_id who
    then (if (check now client_id l).0 then log ++ now ∷ [] else log)
    else log

check_room :
    (w m : ℕ) (who : String) (l : RateLimiter) (now : ℕ) (client_id : String)
    → client_id ≡ who
    → l.window ≡ w
    → l.max_requests ≡ m
    → (check now client_id l).0 ≡ true
    → length (kept w now (stored who l)) < m
check_room w m who l now client_id same ew em passed =
    rw (← same, ← ew, ← em)
      (ltb→lt (length (kept l.window now (stored client_id l))) l.max_requests
        (sym (check_passed now client_id l) ∙ passed))

check-Shows :
    (w m : ℕ) (who : String) (l : RateLimiter) (last now : ℕ) (client_id : String) (log : List ℕ)
    → last ≤ now
    → l.window ≡ w
    → l.max_requests ≡ m
    → Shows w m last (stored who l) log
    → Shows w m now (stored who (check now client_id l).1) (next_log who now client_id l log)
check-Shows w m who l last now client_id log h ew em v =
    rw (stored-check who now client_id l) (elim (Bool-cases (str_eq client_id who)) [
      | inr other ↦ rw other (Shows-later w m last now (stored who l) log h v)
      | inl own ↦
          let same : client_id ≡ who = (eq_iff client_id who).0 own in
          elim (Bool-cases (check now client_id l).0) [
            | inl passed ↦
                rw (own, passed)
                  (rw (same, ew)
                    (Shows-admit w m last now (stored who l) log h
                      (check_room w m who l now client_id same ew em passed) v))
            | inr refused ↦
                rw (own, refused) (rw (same, ew) (Shows-refuse w m last now (stored who l) log h v))
          ]
    ])

run-Shows :
    (w m : ℕ) (who : String) (l : RateLimiter) (last : ℕ) (log : List ℕ) (calls : List (ℕ × String))
    → Ordered last calls
    → l.window ≡ w
    → l.max_requests ≡ m
    → Shows w m last (stored who l) log
    → Shows w m (end last calls) (stored who (run who l log calls).0) (run who l log calls).1
unfolding run
run-Shows w m who l last log [] o ew em v = v
run-Shows w m who l last log ((now, client_id) ∷ calls) o ew em v =
    run-Shows w m who (check now client_id l).1 now (next_log who now client_id l log) calls o.1
      ((check_fields now client_id l).0 ∙ ew) ((check_fields now client_id l).1 ∙ em)
      (check-Shows w m who l last now client_id log o.0 ew em v)

-- From a new limiter, after any calls of any clients at times that do not go back, the calls of
-- one client that passed and lie in a window are at most `max_requests`, for every window that
-- ends at the last call or later.
pub passed-le-max_requests :
    (max_requests window : ℕ) (who : String) (start now : ℕ) (calls : List (ℕ × String))
    → Ordered start calls
    → end start calls ≤ now
    → length (kept window now (run who (new max_requests window) [] calls).1) ≤ max_requests
unfolding new get
passed-le-max_requests max_requests window who start now calls o h =
    let shows : Shows window max_requests (end start calls) _ _ =
      run-Shows window max_requests who (new max_requests window) start [] calls o refl refl
        (record { same = λ t k. refl; few = λ t k. omega arith }) in
    shows.few now h
