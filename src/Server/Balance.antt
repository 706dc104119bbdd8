-- ===== src/Server/Balance.antt =====
-- src/server.rs: steps of a connection that leave no request counted as active that they have not
-- left so before.
use xprotocol.Prelude.{
  ℕ, ◌+◌, ◌%◌, ◌≤◌, ◌≡◌, refl, subst, sym, Bool, true, false, Option, none, some, arith, u64_mod,
  if◌then◌else◌,
}
use xprotocol.Error.{Result, ok, err}
use xprotocol.Action.{Action, continue, pure, ◌>>=◌}
use xprotocol.Metrics.{ServiceMetrics, request_start, request_end}
use xprotocol.Metrics.Requests.{finished}
use xprotocol.Server.Connection.{Connection, map_metrics}

-- From `m` to `n`, requests that are started and not ended change from `i` to `o`.
pub record Balanced (i o : ℕ) (m n : ServiceMetrics) : Type 0 where
  pub active : (n.active_requests + i) % u64_mod ≡ (m.active_requests + o) % u64_mod
  pub ended :
      (n.requests_total + finished m + i) % u64_mod ≡ (m.requests_total + finished n + o) % u64_mod

abbrev pub Owes : ℕ → ℕ → Option ServiceMetrics → Option ServiceMetrics → Type 0
Owes i o none none = Unit
Owes i o none (some n) = ⊥
Owes i o (some m) none = ⊥
Owes i o (some m) (some n) = Balanced i o m n

pub Owes-refl : (i : ℕ) (a : Option ServiceMetrics) → Owes i i a a
Owes-refl i none = tt
Owes-refl i (some m) = record { active = refl; ended = omega arith }

Owes-trans :
    (i o p : ℕ) (a b c : Option ServiceMetrics) → Owes i o a b → Owes o p b c → Owes i p a c
Owes-trans i o p none none none h k = tt
Owes-trans i o p none none (some n) h k = elim k [ ]
Owes-trans i o p none (some m) c h k = elim h [ ]
Owes-trans i o p (some l) none c h k = elim h [ ]
Owes-trans i o p (some l) (some m) none h k = elim k [ ]
Owes-trans i o p (some l) (some m) (some n) h k = record {
  active = omega (arith, h.active, k.active);
  ended = omega (arith, h.ended, k.ended);
}

pub Owes-request_start : (a : Option ServiceMetrics) → Owes 0 1 a (map_metrics request_start a)
unfolding map_metrics request_start
Owes-request_start none = tt
Owes-request_start (some m) = record { active = omega arith; ended = omega arith }

pub Owes-request_end :
    (latency : ℕ) (success : Bool) (a : Option ServiceMetrics)
    → Owes 1 0 a (map_metrics (request_end latency success false) a)
unfolding map_metrics request_end
Owes-request_end latency success none = tt
Owes-request_end latency true (some m) = record { active = omega arith; ended = omega arith }
Owes-request_end latency false (some m) = record { active = omega arith; ended = omega arith }

module _ {W : Type 0} where
  -- A step that succeeds leaves `o` requests open; one that fails, at most one.
  abbrev pub Ends : {A : Type 0} → ℕ → ℕ → Connection W → Result A × Connection W → Type 0
  Ends i o c (ok a, s) = Owes i o c.metrics s.metrics
  Ends i o c (err e, s) = (k : ℕ) × (k ≤ 1) × Owes i k c.metrics s.metrics

  pub record Pays {A : Type 0} (i o : ℕ) (m : Action (Connection W) A) : Type 0 where
    pub at : (c : Connection W) → Ends i o c (m c)

  pub Ends-keep :
      {A : Type 0} (i : ℕ) (c : Connection W) (x : Result A × Connection W)
      → i ≤ 1
      → x.1.metrics ≡ c.metrics
      → Ends i i c x
  Ends-keep i c (ok a, s) h e = subst (λ m. Owes i i c.metrics m) (sym e) (Owes-refl i c.metrics)
  Ends-keep i c (err f, s) h e =
      (i, h, subst (λ m. Owes i i c.metrics m) (sym e) (Owes-refl i c.metrics))

  Ends-trans :
      {A : Type 0} (i o p : ℕ) (c s : Connection W) (x : Result A × Connection W)
      → Owes i o c.metrics s.metrics
      → Ends o p s x
      → Ends i p c x
  Ends-trans i o p c s (ok a, r) h k = Owes-trans i o p c.metrics s.metrics r.metrics h k
  Ends-trans i o p c s (err e, r) h (n, small, k) =
      (n, small, Owes-trans i o n c.metrics s.metrics r.metrics h k)

  Ends-continue :
      {A B : Type 0} (i o p : ℕ) (c : Connection W) (x : Result A × Connection W)
      (f : A → Action (Connection W) B)
      → Ends i o c x
      → ((a : A) → Pays o p (f a))
      → Ends i p c (continue x f)
  Ends-continue i o p c (err e, s) f h k = h
  Ends-continue i o p c (ok a, s) f h k = Ends-trans i o p c s (f a s) h ((k a).at s)

  pub Pays-if :
      {A : Type 0} (i o : ℕ) (b : Bool) (m n : Action (Connection W) A)
      → Pays i o m
      → Pays i o n
      → Pays i o (if b then m else n)
  Pays-if i o true m n h k = h
  Pays-if i o false m n h k = k

  -- A step, and what comes after it.
  pub Pays-then :
      {A B : Type 0} (i o p : ℕ) (m : Action (Connection W) A) (f : A → Action (Connection W) B)
      → Pays i o m
      → ((a : A) → Pays o p (f a))
      → Pays i p (m >>= f)
  Pays-then i o p m f h k = record { at = λ c. Ends-continue i o p c (m c) f (h.at c) k }

  pub Pays-pure : {A : Type 0} (a : A) → Pays 0 0 (pure {S = Connection W} a)
  Pays-pure a = record { at = λ c. Owes-refl 0 c.metrics }
