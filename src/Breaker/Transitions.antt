-- ===== src/Breaker/Transitions.antt =====
-- src/circuit_breaker.rs: the transition diagram.
use xprotocol.Prelude.{
  ℕ, ◌≤◌, ◌<◌, ◌-◌, ◌≡◌, ◌⊎◌, inl, inr, some, arith, fetch_add, refl, Bool-cases, Option-cases, leb,
  leb→le, ltb, ltb→lt,
}
use xprotocol.Breaker.{
  CircuitState, closed, is_open, half_open, CircuitBreaker, Event, succeeded, failed, polled, step,
  record_success, record_failure, poll,
}

-- The moves that the diagram allows, with what each of them needs.
pub data Move (b c : CircuitBreaker) (now : ℕ) : Event → Type 0 where
  stay : (e : Event) → c.state ≡ b.state → Move b c now e
  trip :
      c.state ≡ is_open → b.threshold ≤ c.failures → c.last_failure ≡ some now → Move b c now failed
  retry :
      (last : ℕ)
      → b.state ≡ is_open
      → b.last_failure ≡ some last
      → b.timeout < now - last
      → c.state ≡ half_open
      → Move b c now polled
  recover : b.state ≡ half_open → c.state ≡ closed → Move b c now succeeded

CircuitState-cases : (s : CircuitState) → (s ≡ closed) ⊎ ((s ≡ is_open) ⊎ (s ≡ half_open))
CircuitState-cases closed = inl refl
CircuitState-cases is_open = inr (inl refl)
CircuitState-cases half_open = inr (inr refl)

success-Move : (b : CircuitBreaker) (now : ℕ) → Move b (record_success b) now succeeded
unfolding record_success
success-Move b now = elim (CircuitState-cases b.state) [
  | inl e ↦ stay succeeded (ground arith)
  | inr (inl e) ↦ stay succeeded (ground arith)
  | inr (inr e) ↦ recover e (ground arith)
]

failure-Move : (b : CircuitBreaker) (now : ℕ) → Move b (record_failure now b) now failed
unfolding record_failure
failure-Move b now = elim (Bool-cases (leb b.threshold (fetch_add b.failures 1))) [
  | inl e ↦ trip (rw e) (leb→le b.threshold (fetch_add b.failures 1) e) refl
  | inr e ↦ stay failed (rw e)
]

poll-Move : (b : CircuitBreaker) (now : ℕ) → Move b (poll now b).1 now polled
unfolding poll
poll-Move b now = elim (CircuitState-cases b.state) [
  | inl e ↦ stay polled (ground arith)
  | inr (inr e) ↦ stay polled (ground arith)
  | inr (inl e) ↦ elim (Option-cases b.last_failure) [
    | inl l ↦ stay polled (ground arith)
    | inr (last, l) ↦ elim (Bool-cases (ltb b.timeout (now - last))) [
      | inl late ↦ retry last e l (ltb→lt b.timeout (now - last) late) (ground arith)
      | inr early ↦ stay polled (ground arith)
    ]
  ]
]

-- Each event makes a move of the diagram: only a failure that brings the count to the threshold
-- opens the breaker, only the lapse of the timeout half-opens it, and only from half-open does a
-- success close it.
pub step-Move : (b : CircuitBreaker) (now : ℕ) (e : Event) → Move b (step b (now, e)) now e
unfolding step
step-Move b now succeeded = success-Move b now
step-Move b now failed = failure-Move b now
step-Move b now polled = poll-Move b now
