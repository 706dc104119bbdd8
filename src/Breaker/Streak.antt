-- ===== src/Breaker/Streak.antt =====
-- src/circuit_breaker.rs: the failure count, and when a run of failures opens the breaker.
use xprotocol.Prelude.{
  ℕ, suc, ◌+◌, ◌<◌, ◌≡◌, ◌∙◌, ap, refl, List, [], ◌∷◌, map, length, arith, leb, le→leb, leb-false,
  leb→le, u64_mod, if◌then◌else◌, Bool-cases, inl, inr,
}
use xprotocol.Breaker.{
  closed, is_open, CircuitBreaker, Event, succeeded, failed, polled, new, step, record_failure,
  record_success, poll,
}

unfoldable pub run : CircuitBreaker → List (ℕ × Event) → CircuitBreaker
unfolding step
run b [] = b
run b (e ∷ es) = run (step b e) es

-- The failures since the last success, `k` of them before the history starts.
abbrev pub streak : ℕ → List (ℕ × Event) → ℕ
streak k [] = k
streak k ((_, succeeded) ∷ es) = streak 0 es
streak k ((_, failed) ∷ es) = streak (k + 1) es
streak k ((_, polled) ∷ es) = streak k es

-- After any history that is shorter than the range of the counter, the count is the number of
-- failures since the last success.
pub failures-run :
    (b : CircuitBreaker) (es : List (ℕ × Event))
    → b.failures + length es < u64_mod
    → (run b es).failures ≡ streak b.failures es
unfolding run
failures-run b [] h = refl
failures-run b ((now, succeeded) ∷ es) h = failures-run (record_success b) es (omega arith)
failures-run b ((now, failed) ∷ es) h =
    failures-run (record_failure now b) es (omega arith) ∙ ap (λ k. streak k es) (omega arith)
failures-run b ((now, polled) ∷ es) h = failures-run (poll now b).1 es (omega arith)

abbrev pub failures_at : List ℕ → List (ℕ × Event)
failures_at = map (λ now. (now, failed))

stays_open :
    (b : CircuitBreaker) (ts : List ℕ)
    → b.state ≡ is_open
    → (run b (failures_at ts)).state ≡ is_open
unfolding run
stays_open b [] h = h
stays_open b (now ∷ ts) h = stays_open (record_failure now b) ts still
  where
    still : (record_failure now b).state ≡ is_open
    still = unfold record_failure in ground arith

opens :
    (b : CircuitBreaker) (ts : List ℕ)
    → b.state ≡ closed
    → b.failures < b.threshold
    → b.failures + length ts < u64_mod
    → (run b (failures_at ts)).state
      ≡ (if leb b.threshold (b.failures + length ts) then is_open else closed)
unfolding run
opens b [] h k l = rw (leb-false b.threshold (b.failures + 0) (omega arith)) h
opens b (now ∷ ts) h k l = elim (Bool-cases (leb b.threshold (b.failures + 1))) [
  | inl e ↦
      rw
        (le→leb b.threshold (b.failures + suc (length ts))
          (omega (arith, leb→le b.threshold (b.failures + 1) e)))
        (stays_open (record_failure now b) ts (unfold record_failure in ground arith))
  | inr e ↦
      opens (record_failure now b) ts (unfold record_failure in ground arith)
        (unfold record_failure in ground arith) (unfold record_failure in omega arith)
      ∙ unfold record_failure in
        ap (λ n. if leb b.threshold n then is_open else closed) (omega arith)
]

-- A new breaker that sees nothing but failures is open exactly when they have reached the
-- threshold, which is positive, and is closed before.
pub new-failures :
    (threshold : ℕ) (ts : List ℕ)
    → 0 < threshold
    → length ts < u64_mod
    → (run (new threshold) (failures_at ts)).state
      ≡ (if leb threshold (length ts) then is_open else closed)
new-failures threshold ts h k =
    unfold new in
    opens (new threshold) ts refl h (omega arith)
    ∙ ap (λ n. if leb threshold n then is_open else closed) (omega arith)
