-- ===== src/Client/Reliable/Reconnect.antt =====
-- src/client.rs: which attempt ends `ReliableUdsClient::reconnect`, and what it waits for.
use Prim.Native.Nat.{min}
use mathlib.Core.Path.{ap₂}
use xprotocol.Prelude.{
  ℕ, zero, suc, ◌+◌, ◌*◌, ◌≤◌, ◌<◌, ◌≡◌, ◌⊎◌, inl, inr, ◌∙◌, String, refl, ap, true, false, none,
  some, List, [], ◌∷◌, arith, decimal, str_append,
}
use xprotocol.Error.{ProtocolError, connection_failed, ok, err}
use xprotocol.Client.Stats.{record_reconnect}
use xprotocol.Client.Reliable.{
  ReliableUdsClient, connected, reconnecting, failed, Run, returned, Dial, dialled, refused,
  too_slow,
}
use xprotocol.Client.Reliable.Redial.{attempts, try_once, reconnect}

abbrev pub Fails : Dial → Type 0
Fails (dialled s) = ⊥
Fails d = Unit

-- the delays that follow the attempts from number `first` on, `n` of them
abbrev pub backoff : ℕ → ℕ → ℕ → List ℕ
backoff delay first zero = []
backoff delay first (suc n) = min (delay * (first + 1)) 30000 ∷ backoff delay (first + 1) n

abbrev pub online : ℕ → ℕ → ReliableUdsClient → ReliableUdsClient
online socket now c = record c {
  stream = some socket;
  state = connected;
  connected_at = some now;
  stats = record_reconnect now true c.stats;
  lock_held = false;
}

abbrev pub gave_up : ReliableUdsClient → ProtocolError
gave_up c = connection_failed (
    str_append "Failed to reconnect after "
      (str_append (decimal c.config.max_reconnect_attempts) " attempts"))

abbrev pub offline : ℕ → ReliableUdsClient → ReliableUdsClient
offline now c = record c {
  stream = none;
  state = failed;
  stats = record_reconnect now false c.stats;
  lock_held = false;
}

Dial-cases : (d : Dial) → Fails d → ((e : String) × (d ≡ refused e)) ⊎ (d ≡ too_slow)
Dial-cases (dialled s) h = absurd h
Dial-cases (refused e) h = inl (e, refl)
Dial-cases too_slow h = inr refl

module _ (dial : ℕ → Dial) (at : ℕ → ℕ) where
  abbrev rest_of : ℕ → ℕ → ReliableUdsClient → List ℕ × Run (Unit {0})
  rest_of left first c =
      attempts left dial at (first + 1) (record c { state = reconnecting; stream = none })

  -- one attempt that fails
  attempt-Fails :
      (left first : ℕ) (c : ReliableUdsClient)
      → c.stream_held ≡ false
      → Fails (dial first)
      → let rest =
          attempts left dial at (first + 1) (record c { state = reconnecting; stream = none }) in
        attempts (suc left) dial at first c
        ≡ (min (c.config.reconnect_delay * (first + 1)) 30000 ∷ rest.0, rest.1)
  unfolding attempts
  attempt-Fails left first c g bad = elim (Dial-cases (dial first) bad) [
    | inl (e, d) ↦ ap₂ (λ b x. try_once b x (at first) first c (rest_of left first c)) g d
    | inr d ↦ ap₂ (λ b x. try_once b x (at first) first c (rest_of left first c)) g d
  ]

  attempts_succeed :
      (k left first n socket : ℕ) (c : ReliableUdsClient)
      → n ≡ first + k
      → k < left
      → c.stream_held ≡ false
      → ((i : ℕ) → first ≤ i → i < n → Fails (dial i))
      → dial n ≡ dialled socket
      → attempts left dial at first c
        ≡ (backoff c.config.reconnect_delay first k, returned (ok tt) (online socket (at n) c))
  unfolding attempts
  attempts_succeed zero zero first n socket c e h g bad good = absurd (omega arith)
  attempts_succeed (suc k) zero first n socket c e h g bad good = absurd (omega arith)
  attempts_succeed zero (suc left) first n socket c e h g bad good =
      let here : first ≡ n = omega arith in
      ap₂ (λ b x. try_once b x (at first) first c (rest_of left first c)) g (ap dial here ∙ good)
      ∙ ap (λ i. ([], returned (ok tt) (online socket (at i) c))) here
  attempts_succeed (suc k) (suc left) first n socket c e h g bad good =
      attempt-Fails left first c g (bad first (omega arith) (omega arith))
      ∙ ap (λ r. (min (c.config.reconnect_delay * (first + 1)) 30000 ∷ r.0, r.1))
          (attempts_succeed k left (first + 1) n socket
            (record c { state = reconnecting; stream = none }) (omega arith) (omega arith) g
            (λ i lo hi. bad i (omega arith) hi) good)

  attempts_exhausted :
      (left first n : ℕ) (c : ReliableUdsClient)
      → n ≡ first + left
      → c.stream_held ≡ false
      → ((i : ℕ) → first ≤ i → i < n → Fails (dial i))
      → 0 < left
      → attempts left dial at first c ≡ (
        backoff c.config.reconnect_delay first left,
        returned (err (gave_up c)) (offline (at n) c),
      )
  unfolding attempts
  attempts_exhausted zero first n c e g bad h = absurd (omega arith)
  attempts_exhausted (suc zero) first n c e g bad h =
      attempt-Fails zero first c g (bad first (omega arith) (omega arith))
      ∙ let last : first + 1 ≡ n = omega arith in rw last
  attempts_exhausted (suc (suc left)) first n c e g bad h =
      attempt-Fails (suc left) first c g (bad first (omega arith) (omega arith))
      ∙ ap (λ r. (min (c.config.reconnect_delay * (first + 1)) 30000 ∷ r.0, r.1))
          (attempts_exhausted (suc left) (first + 1) n
            (record c { state = reconnecting; stream = none }) (omega arith) g
            (λ i lo hi. bad i (omega arith) hi) (omega arith))

  -- With both mutexes free and attempt `n` the first that succeeds, below the limit: `reconnect`
  -- returns success, connected by the stream of that attempt, after the delays of the `n` attempts
  -- before it, each the base delay times its number but at most 30 seconds.
  pub reconnect_succeeds :
      (n socket : ℕ) (c : ReliableUdsClient)
      → c.lock_held ≡ false
      → c.stream_held ≡ false
      → n < c.config.max_reconnect_attempts
      → ((i : ℕ) → i < n → Fails (dial i))
      → dial n ≡ dialled socket
      → reconnect dial at c
        ≡ (backoff c.config.reconnect_delay 0 n, returned (ok tt) (online socket (at n) c))
  unfolding reconnect
  reconnect_succeeds n socket c l g h bad good = rw l (
      attempts_succeed n c.config.max_reconnect_attempts 0 n socket (record c { lock_held = true })
        (omega arith) h g (λ i lo hi. bad i hi) good)

  -- If every attempt fails, and there is one, `reconnect` reports the number of attempts, and the
  -- client is `Failed`, without a stream, with one unsuccessful reconnection recorded.
  pub reconnect_gives_up :
      (c : ReliableUdsClient)
      → c.lock_held ≡ false
      → c.stream_held ≡ false
      → 0 < c.config.max_reconnect_attempts
      → ((i : ℕ) → i < c.config.max_reconnect_attempts → Fails (dial i))
      → reconnect dial at c ≡ (
        backoff c.config.reconnect_delay 0 c.config.max_reconnect_attempts,
        returned (err (gave_up c)) (offline (at c.config.max_reconnect_attempts) c),
      )
  unfolding reconnect
  reconnect_gives_up c l g h bad = rw l (
      attempts_exhausted c.config.max_reconnect_attempts 0 c.config.max_reconnect_attempts
        (record c { lock_held = true }) (omega arith) g (λ i lo hi. bad i hi) h)
