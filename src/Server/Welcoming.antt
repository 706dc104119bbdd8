-- ===== src/Server/Welcoming.antt =====
-- src/server.rs: how many connections of one client the server welcomes in a window, over all that
-- it accepts.
pub mod Calls
use native.Mathlib.Nat.{le_trans}
use mathlib.Core.List.{append-nil}
use xprotocol.Prelude.{
  ℕ, ◌+◌, ◌*◌, ◌≤◌, ◌≡◌, ◌≢◌, refl, sym, ap, ◌∙◌, subst, inl, inr, String, Bool, true, false,
  Option, none, List, [], ◌∷◌, ◌++◌, length, length-append, retain-append, str_eq, arith,
  if◌then◌else◌, Bool-cases,
}
use xprotocol.Error.{Result, ok, err}
use xprotocol.Metrics.{ServiceMetrics}
use xprotocol.Wire.{AsyncWrite}
use xprotocol.Window.{kept}
use xprotocol.Auth.Limiter
use xprotocol.Auth.Limiter.{RateLimiter, Ordered, end, passed-le-max_requests}
use xprotocol.Server.{ServerConfig}
use xprotocol.Server.Connection.{Json, Handler, Connection, handshake}
use xprotocol.Server.Running.{
  Event, accepted, failed, ended, greets, Serving, noted, greeted, step, run_events,
}
use xprotocol.Server.Admission.{asks, Silent, Asked, Admits, handshake-Admits}
use xprotocol.Server.Welcoming.Calls.{InOrder, latest, calls_of, run-append, calls_of-Timed}

-- the times at which the log welcomes a client
unfoldable pub times : String → List (ℕ × String) → List ℕ
times who [] = []
times who ((now, client_id) ∷ log) =
    let rest = times who log in if str_eq client_id who then now ∷ rest else rest

times-append :
    (who : String) (a b : List (ℕ × String)) → times who (a ++ b) ≡ times who a ++ times who b
unfolding times
times-append who [] b = refl
times-append who ((now, id) ∷ a) b = ground (arith, times-append who a b)

-- In every window there are no more welcomes of the client than calls of its that passed.
abbrev Behind : ℕ → String → List (ℕ × String) → List ℕ → Type 0
Behind window who log passed =
    (at : ℕ) → length (kept window at (times who log)) ≤ length (kept window at passed)

module _ (window : ℕ) (who : String) where
  Behind-later :
      (log : List (ℕ × String)) (passed more : List ℕ)
      → Behind window who log passed
      → Behind window who log (passed ++ more)
  Behind-later log passed more b at = le_trans (b at) (
      rw (retain-append)
        (omega (arith, length-append (kept window at passed) (kept window at more))))

  Behind-both :
      (log : List (ℕ × String)) (passed : List ℕ) (now : ℕ) (id : String)
      → str_eq id who ≡ true
      → Behind window who log passed
      → Behind window who (log ++ (now, id) ∷ []) (passed ++ now ∷ [])
  unfolding times
  Behind-both log passed now id own b at =
      rw (times-append, own)
        (rw (retain-append, retain-append)
          (omega (
            arith,
            b at,
            length-append (kept window at (times who log)) (kept window at (now ∷ [])),
            length-append (kept window at passed) (kept window at (now ∷ [])),
          )))

  Behind-skip :
      (log : List (ℕ × String)) (passed : List ℕ) (now : ℕ) (id : String)
      → str_eq id who ≡ false
      → Behind window who log passed
      → Behind window who (log ++ (now, id) ∷ []) passed
  unfolding times
  Behind-skip log passed now id other b at =
      rw (times-append, other) (rw (append-nil (times who log)) (b at))

  -- one call of the limiter, and what is noted of its handshake
  called : ℕ → String → Bool → List ℕ → List ℕ
  called now id passes passed =
      if str_eq id who then (if passes then passed ++ now ∷ [] else passed) else passed

  Behind-called :
      (log : List (ℕ × String)) (passed : List ℕ) (now : ℕ) (id : String) (passes : Bool)
      → Behind window who log passed
      → Behind window who log (called now id passes passed)
  unfolding called
  Behind-called log passed now id passes b = elim (Bool-cases (str_eq id who)) [
    | inr other ↦ rw other b
    | inl own ↦ elim (Bool-cases passes) [
      | inl yes_ ↦ rw (own, yes_) (Behind-later log passed (now ∷ []) b)
      | inr no_ ↦ rw (own, no_) b
    ]
  ]

module _ (t : AsyncWrite) (j : Json) (h : Handler j.Value) (config : ServerConfig) (window : ℕ)
    (who : String) where
  noted-Behind :
      (r : Result String) (log : List (ℕ × String)) (passed : List ℕ) (now : ℕ) (id : String)
      (passes : Bool)
      → ((i : String) → r ≡ ok i → (i ≡ id) × (passes ≡ true))
      → Behind window who log passed
      → Behind window who (noted t j h config now r log) (called window who now id passes passed)
  unfolding noted called
  noted-Behind (err e) log passed now id passes k b =
      Behind-called window who log passed now id passes b
  noted-Behind (ok i) log passed now id passes k b =
      let (same, pass) = k i refl in
      elim (Bool-cases (str_eq id who)) [
        | inr other ↦ rw (same, pass, other) (Behind-skip window who log passed now id other b)
        | inl own ↦ rw (same, pass, own) (Behind-both window who log passed now id own b)
      ]

  noted-silent :
      (now : ℕ) (r : Result String) (log : List (ℕ × String))
      → ((i : String) → r ≢ ok i)
      → noted t j h config now r log ≡ log
  unfolding noted
  noted-silent now (ok i) log k = absurd (k i refl)
  noted-silent now (err e) log k = refl

  -- the limiter after its calls, and the log of those of the client that passed
  abbrev After : RateLimiter → List ℕ → List (ℕ × String) → RateLimiter × List ℕ
  After l passed cs = Limiter.run who l passed cs

  Admits-Behind :
      (now : ℕ) (l : RateLimiter) (cs : List (ℕ × String)) (x : Result String × Connection t.W)
      (log : List (ℕ × String)) (passed : List ℕ)
      → Admits t j h config now l cs x
      → Behind window who log passed
      → Behind window who (noted t j h config now x.0 log) (After l passed cs).1
        × (x.1.limiter ≡ (After l passed cs).0)
  unfolding Limiter.run called
  Admits-Behind now l cs x log passed (inl s) b = (
    subst (λ r. Behind window who r (After l passed cs).1)
        (sym (noted-silent now x.0 log s.not_welcome))
        (subst (λ z. Behind window who log (After l passed z).1) (sym s.nothing) b),
    s.untouched ∙ ap (λ z. (After l passed z).0) (sym s.nothing),
  )
  Admits-Behind now l cs x log passed (inr a) b = (
    subst (λ z. Behind window who (noted t j h config now x.0 log) (After l passed z).1) (sym a.one)
        (noted-Behind x.0 log passed now a.id (Limiter.check now a.id l).0 a.welcome_if b),
    a.checked ∙ ap (λ z. (After l passed z).0) (sym a.one),
  )

  run_events-Behind :
      (es : List (Event t.W)) (s : Serving) (passed : List ℕ)
      → Behind window who s.welcomed passed
      → Behind window who
          (run_events t j h config es s).welcomed
          (After s.limiter passed (calls_of t j h config es)).1
  unfolding run_events calls_of step greeted Limiter.run
  run_events-Behind [] s passed b = b
  run_events-Behind (accepted ∷ es) s passed b =
      run_events-Behind es (step t j h config accepted s) passed b
  run_events-Behind (failed ∷ es) s passed b = run_events-Behind es s passed b
  run_events-Behind (ended ∷ es) s passed b =
      run_events-Behind es (step t j h config ended s) passed b
  run_events-Behind (greets now w first ∷ es) s passed b =
      let c : Connection t.W = record {
        writer = w;
        metrics = s.metrics;
        notices = [];
        limiter = s.limiter;
      } in
      let cs = asks t j h config now first in
      let x = handshake t j h config now first c in
      let (b', same) =
        Admits-Behind now s.limiter cs x s.welcomed passed
          (handshake-Admits t j h config now first c) b in
      let s' = step t j h config (greets now w first) s in
      let later = run_events-Behind es s' (After s.limiter passed cs).1 b' in
      let joined =
        ap (λ l. After l (After s.limiter passed cs).1 (calls_of t j h config es)) same
        ∙ sym (run-append who s.limiter passed cs (calls_of t j h config es)) in
      subst (λ z. Behind window who (run_events t j h config es s').welcomed z)
        (ap (λ z. z.1) joined) later

-- what the accept loop starts with
unfoldable pub opened : ServerConfig → ℕ → Option ServiceMetrics → Serving
opened config active metrics = record {
  active = active;
  limiter = Limiter.new config.rate_limit.max_requests (1000 * config.rate_limit.window_secs);
  metrics = metrics;
  welcomed = [];
}

-- The rate limit holds over all connections of a server together: from the limiter that the
-- configuration gives, after any accepts, failures to accept, ends of connections and first
-- messages, in any order and with whatever bytes and writers, where the first messages come at
-- times that do not go back, the handshakes of one client that succeeded and lie in a window of the
-- configured length are at most the configured number, for every window that ends at the last first
-- message or later.
pub welcomed-le-max_requests :
    (t : AsyncWrite) (j : Json) (h : Handler j.Value) (config : ServerConfig) (who : String)
    (start now active : ℕ) (metrics : Option ServiceMetrics) (es : List (Event t.W))
    → InOrder start es
    → latest start es ≤ now
    → length (
        kept
          (1000 * config.rate_limit.window_secs)
          now
          (times who (run_events t j h config es (opened config active metrics)).welcomed))
      ≤ config.rate_limit.max_requests
unfolding opened times
welcomed-le-max_requests t j h config who start now active metrics es o le =
    let window = 1000 * config.rate_limit.window_secs in
    let calls = calls_of t j h config es in
    let (ordered, ended_by) = calls_of-Timed t j h config start now es o le in
    le_trans
      (run_events-Behind t j h config window who es (opened config active metrics) []
        (λ at. omega arith) now)
      (passed-le-max_requests config.rate_limit.max_requests window who start now calls ordered
        ended_by)
