-- ===== src/Server/Welcoming/Calls.antt =====
-- src/server.rs: the first messages of a history of the server, as calls of the rate limiter.
use native.Mathlib.Nat.{le_trans}
use xprotocol.Prelude.{
  ℕ, ◌≤◌, ◌≡◌, refl, sym, subst, inl, inr, String, none, List, [], ◌∷◌, ◌++◌, str_eq, if◌then◌else◌,
}
use xprotocol.Error.{Result}
use xprotocol.Wire.{AsyncWrite}
use xprotocol.Auth.Limiter
use xprotocol.Auth.Limiter.{RateLimiter, Ordered, end}
use xprotocol.Server.{ServerConfig}
use xprotocol.Server.Connection.{Json, Handler, Connection}
use xprotocol.Server.Running.{Event, accepted, failed, ended, greets}
use xprotocol.Server.Admission.{asks, handshake-Admits}

-- The times go on from `last`, and `latest` is the last of them.
abbrev pub InOrder : {W : Type 0} → ℕ → List (Event W) → Type 0
InOrder last [] = Unit
InOrder last (accepted ∷ es) = InOrder last es
InOrder last (failed ∷ es) = InOrder last es
InOrder last (ended ∷ es) = InOrder last es
InOrder last (greets now w first ∷ es) = (last ≤ now) × InOrder now es

abbrev pub latest : {W : Type 0} → ℕ → List (Event W) → ℕ
latest last [] = last
latest last (accepted ∷ es) = latest last es
latest last (failed ∷ es) = latest last es
latest last (ended ∷ es) = latest last es
latest last (greets now w first ∷ es) = latest now es

pub run-append :
    (who : String) (l : RateLimiter) (passed : List ℕ) (a b : List (ℕ × String))
    → Limiter.run who l passed (a ++ b)
      ≡ Limiter.run who (Limiter.run who l passed a).0 (Limiter.run who l passed a).1 b
unfolding Limiter.run
run-append who l passed [] b = refl
run-append who l passed ((now, id) ∷ a) b =
    let (p, l') = Limiter.check now id l in
    run-append who l' (if str_eq id who then (if p then passed ++ now ∷ [] else passed) else passed)
      a b

module _ (t : AsyncWrite) (j : Json) (h : Handler j.Value) (config : ServerConfig) where
  -- the first messages of a history, as calls of the limiter
  unfoldable pub calls_of : List (Event t.W) → List (ℕ × String)
  calls_of [] = []
  calls_of (accepted ∷ es) = calls_of es
  calls_of (failed ∷ es) = calls_of es
  calls_of (ended ∷ es) = calls_of es
  calls_of (greets now w first ∷ es) = asks t j h config now first ++ calls_of es

  -- The calls do not go back in time, and none is later than `bound`.
  abbrev pub Timed : ℕ → ℕ → List (ℕ × String) → Type 0
  Timed last bound cs = Ordered last cs × (end last cs ≤ bound)

  Timed-later :
      (last now bound : ℕ) (cs : List (ℕ × String))
      → last ≤ now
      → Timed now bound cs
      → Timed last bound cs
  Timed-later last now bound [] le o = (tt, le_trans le o.1)
  Timed-later last now bound ((t0, id) ∷ cs) le o = ((le_trans le o.0.0, o.0.1), o.1)

  -- A first message asks at most once, at its time.
  asks-Timed :
      (last now bound : ℕ) (first : Result (ℕ × List ℕ)) (rest : List (ℕ × String))
      (c : Connection t.W)
      → last ≤ now
      → Timed now bound rest
      → Timed last bound (asks t j h config now first ++ rest)
  asks-Timed last now bound first rest c le o = elim (handshake-Admits t j h config now first c) [
    | inl s ↦
        subst (λ cs. Timed last bound (cs ++ rest)) (sym s.nothing)
          (Timed-later last now bound rest le o)
    | inr a ↦ subst (λ cs. Timed last bound (cs ++ rest)) (sym a.one) ((le, o.0), o.1)
  ]

  pub calls_of-Timed :
      (last bound : ℕ) (es : List (Event t.W))
      → InOrder last es
      → latest last es ≤ bound
      → Timed last bound (calls_of es)
  unfolding calls_of
  calls_of-Timed last bound [] o le = (tt, le)
  calls_of-Timed last bound (accepted ∷ es) o le = calls_of-Timed last bound es o le
  calls_of-Timed last bound (failed ∷ es) o le = calls_of-Timed last bound es o le
  calls_of-Timed last bound (ended ∷ es) o le = calls_of-Timed last bound es o le
  calls_of-Timed last bound (greets now w first ∷ es) o le =
      asks-Timed last now bound first (calls_of es)
        (record { writer = w; metrics = none; notices = []; limiter = Limiter.new 0 0 }) o.0
        (calls_of-Timed now bound es o.1 le)
