-- ===== src/Webhook/Sending.antt =====
-- src/webhook.rs: `delay_for_retry` and `WebhookSender::send`.
use xprotocol.Prelude.{
  ℕ, zero, sym, ◌∙◌, subst, suc, ◌+◌, ◌≤◌, ◌<◌, ◌≡◌, refl, Bool, true, false, some, List, ◌⊎◌, inl,
  inr, Bool-cases, leb-false, le→leb, u32_mod, arith,
}
use xprotocol.Error.{Result, ok, err, IoResult, io_ok, from_json}
use xprotocol.Webhook.{
  Float, WebhookRetryPolicy, WebhookConfig, WebhookEvent, Post, Http, linear, delay_for_retry,
  last_attempt, request_of, gave_up, succeeds, judge, attempts, send_payload, send,
}

last_attempt_lem : (n : ℕ) → n < u32_mod → last_attempt n ≡ n
last_attempt_lem n h = omega (arith, h)

add_one : (i : ℕ) → i + 1 ≡ suc i
add_one i = omega arith

le-cases : (a b : ℕ) → a ≤ b → (a ≡ b) ⊎ (a < b)
le-cases a b h = ground arith

-- Every pause of a policy is at most its longest delay; and, where a number times a power of one
-- is that number, each pause of a linear policy is its delay.
pub delay_for_retry-le-max_delay_ms :
    (f : Float) (p : WebhookRetryPolicy f) (max_retries delay attempt : ℕ)
    → f.product delay f.one attempt ≡ delay
    → (delay_for_retry f p attempt ≤ p.max_delay_ms)
      × (delay_for_retry f (linear f max_retries delay) attempt ≡ delay)
unfolding delay_for_retry
delay_for_retry-le-max_delay_ms f p max_retries delay attempt one =
    (omega arith, omega (arith, one))

module _ (f : Float) (h : Http) where
  open h use {World, Status}

  module _ (p : WebhookRetryPolicy f) (request : Post) where
    -- The world when attempt number `i` is made, as each attempt before it failed and was followed
    -- by its pause; the answer that the attempt gets, and the world after it.
    abbrev pub world_at : World → ℕ → World
    world_at w zero = w
    world_at w (suc i) = h.sleep (delay_for_retry f p (suc i)) (h.post request (world_at w i)).1

    abbrev pub answer_at : World → ℕ → IoResult Status
    answer_at w i = (h.post request (world_at w i)).0

    abbrev pub succeeds_at : World → ℕ → Bool
    succeeds_at w i = succeeds f h (answer_at w i)

    abbrev pub world_after : World → ℕ → World
    world_after w i = (h.post request (world_at w i)).1

    attempts-succeeds :
        (n i : ℕ) (w : World)
        → succeeds_at w i ≡ true
        → attempts f h (suc n) p request i (world_at w i) ≡ (some (ok tt), world_after w i)
    unfolding attempts judge
    attempts-succeeds n i w e = rw e

    attempts-retries :
        (n i : ℕ) (w : World)
        → succeeds_at w i ≡ false
        → i < p.max_retries
        → p.max_retries < u32_mod
        → attempts f h (suc n) p request i (world_at w i)
          ≡ attempts f h n p request (suc i) (world_at w (suc i))
    unfolding attempts judge
    attempts-retries n i w e k b =
        rw (e, last_attempt_lem p.max_retries b, leb-false p.max_retries i k, add_one i)

    attempts-gives_up :
        (n i : ℕ) (w : World)
        → succeeds_at w i ≡ false
        → p.max_retries ≤ i
        → p.max_retries < u32_mod
        → attempts f h (suc n) p request i (world_at w i)
          ≡ (some (err (gave_up f h p.max_retries (answer_at w i))), world_after w i)
    unfolding attempts judge
    attempts-gives_up n i w e k b =
        rw (e, last_attempt_lem p.max_retries b, le→leb p.max_retries i k)

    attempts-first :
        (n a i : ℕ) (w : World)
        → a ≤ i
        → i < a + n
        → i ≤ p.max_retries
        → p.max_retries < u32_mod
        → ((k : ℕ) → k < i → succeeds_at w k ≡ false)
        → succeeds_at w i ≡ true
        → attempts f h n p request a (world_at w a) ≡ (some (ok tt), world_after w i)
    attempts-first zero a i w l m top b fails done = absurd (omega (arith, l, m))
    attempts-first (suc n) a i w l m top b fails done = elim (le-cases a i l) [
      | inl e ↦ rw (e, attempts-succeeds n i w done)
      | inr k ↦
          attempts-retries n a w (fails a k) (omega (arith, k, top)) b
          ∙ attempts-first n (suc a) i w (omega (arith, k)) (omega (arith, m)) top b fails done
    ]

    attempts-exhausted :
        (n a : ℕ) (w : World)
        → a ≤ p.max_retries
        → p.max_retries < a + n
        → p.max_retries < u32_mod
        → ((k : ℕ) → k ≤ p.max_retries → succeeds_at w k ≡ false)
        → attempts f h n p request a (world_at w a) ≡ (
          some (err (gave_up f h p.max_retries (answer_at w p.max_retries))),
          world_after w p.max_retries,
        )
    attempts-exhausted zero a w l m b fails = absurd (omega (arith, l, m))
    attempts-exhausted (suc n) a w l m b fails = elim (le-cases a p.max_retries l) [
      | inl e ↦
          subst
            (λ i. attempts f h (suc n) p request i (world_at w i) ≡ (
              some (err (gave_up f h p.max_retries (answer_at w p.max_retries))),
              world_after w p.max_retries,
            ))
            (sym e)
            (attempts-gives_up n p.max_retries w (fails p.max_retries (omega arith)) (omega arith)
              b)
      | inr k ↦
          attempts-retries n a w (fails a l) k b
          ∙ attempts-exhausted n (suc a) w (omega (arith, k)) (omega (arith, m)) b fails
    ]

    -- Some attempt of so many is the first that succeeds, or each of them fails.
    first_success :
        (n : ℕ) (w : World)
        → ((i : ℕ) × (i < n)
            × ((k : ℕ) → k < i → succeeds_at w k ≡ false)
            × (succeeds_at w i ≡ true))
          ⊎ ((k : ℕ) → k < n → succeeds_at w k ≡ false)
    first_success zero w = inr (λ k l. absurd (omega (arith, l)))
    first_success (suc n) w = elim (first_success n w) [
      | inl (i, l, fails, done) ↦ inl (i, omega (arith, l), fails, done)
      | inr none_yet ↦ elim (Bool-cases (succeeds_at w n)) [
        | inl e ↦ inl (n, omega arith, none_yet, e)
        | inr e ↦ inr (λ k l. elim (le-cases k n (omega (arith, l))) [
          | inl same ↦ rw (same, e)
          | inr less ↦ none_yet k less
        ])
      ]
    ]

    attempts-Returns :
        (w : World)
        → p.max_retries < u32_mod
        → (r : Result (Unit {0})) × (w' : World) × (attempts f h (suc p.max_retries) p request 0 w
            ≡ (some r, w'))
    attempts-Returns w b = elim (first_success (suc p.max_retries) w) [
      | inl (i, l, fails, done) ↦ (
        ok tt,
        world_after w i,
        attempts-first (suc p.max_retries) 0 i w (omega arith) (omega (arith, l)) (omega (arith, l))
            b fails done,
      )
      | inr fails ↦ (
        err (gave_up f h p.max_retries (answer_at w p.max_retries)),
        world_after w p.max_retries,
        attempts-exhausted (suc p.max_retries) 0 w (omega arith) (omega arith) b
            (λ k l. fails k (omega (arith, l))),
      )
    ]

  -- For an event with an encoding, let attempt `i` be the first that gets an answer with a success
  -- status, where `i` is at most `max_retries`. Then `send` returns success after that attempt: it
  -- has made exactly the attempts up to it, with the policy's pause before each but the first, and
  -- it does nothing more.
  pub send-first_success :
      (c : WebhookConfig f) (event : WebhookEvent) (payload : List ℕ) (i : ℕ) (w : World)
      → h.event_body event ≡ io_ok payload
      → c.retry_policy.max_retries < u32_mod
      → i ≤ c.retry_policy.max_retries
      → ((k : ℕ) → k < i → succeeds_at c.retry_policy (request_of f h c event payload) w k ≡ false)
      → succeeds_at c.retry_policy (request_of f h c event payload) w i ≡ true
      → send f h c event w
        ≡ (some (ok tt), world_after c.retry_policy (request_of f h c event payload) w i)
  unfolding send send_payload
  send-first_success c event payload i w enc b top fails done = rw (
    enc,
    attempts-first c.retry_policy (request_of f h c event payload) (suc c.retry_policy.max_retries)
        0 i w (omega arith) (omega (arith, top)) top b fails done,
  )

  -- Where every attempt from number 0 to `max_retries` fails, `send` returns the error of the last
  -- one after exactly those attempts, with the policy's pause between two of them and none after
  -- the last.
  pub send-exhausted :
      (c : WebhookConfig f) (event : WebhookEvent) (payload : List ℕ) (w : World)
      → h.event_body event ≡ io_ok payload
      → c.retry_policy.max_retries < u32_mod
      → ((k : ℕ)
          → k ≤ c.retry_policy.max_retries
          → succeeds_at c.retry_policy (request_of f h c event payload) w k ≡ false)
      → send f h c event w ≡ (
        some (
            err (
              gave_up f h c.retry_policy.max_retries (
                answer_at c.retry_policy
                  (request_of f h c event payload)
                  w
                  c.retry_policy.max_retries))),
        world_after c.retry_policy (request_of f h c event payload) w c.retry_policy.max_retries,
      )
  unfolding send send_payload
  send-exhausted c event payload w enc b fails = rw (
    enc,
    attempts-exhausted c.retry_policy (request_of f h c event payload)
        (suc c.retry_policy.max_retries) 0 w (omega arith) (omega arith) b fails,
  )

  -- `send` returns, for every event, policy and sequence of answers: the loop's turns, one more
  -- than `max_retries`, are never used up.
  pub send-Returns :
      (c : WebhookConfig f) (event : WebhookEvent) (w : World)
      → c.retry_policy.max_retries < u32_mod
      → (r : Result (Unit {0})) × (w' : World) × (send f h c event w ≡ (some r, w'))
  unfolding send
  send-Returns c event w b = encoded (from_json (h.event_body event))
    where
      encoded :
          (x : Result (List ℕ))
          → (r : Result (Unit {0})) × (w' : World) × (send_payload f h c event x w ≡ (some r, w'))
      encoded (ok payload) = attempts-Returns c.retry_policy (request_of f h c event payload) w b
      encoded (err e) = (err e, w, refl)
