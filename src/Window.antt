-- ===== src/Window.antt =====
-- The sliding window that both rate limiters keep (src/auth.rs, src/utils.rs): the test by which
-- they retain the times of earlier requests.
use native.Mathlib.Nat.{le_trans}
use xprotocol.Prelude.{
  ℕ, ◌-◌, ◌≤◌, ◌<◌, ◌≡◌, refl, ap, ◌∙◌, Bool, List, [], ◌∷◌, ◌++◌, length, retain, retain-append,
  length-append, length-retain-le, ltb, arith,
}

-- `now.duration_since(*t) < self.window`
abbrev pub live : ℕ → ℕ → ℕ → Bool
live window now t = ltb (now - t) window

module _ (window : ℕ) where
  abbrev pub kept : ℕ → List ℕ → List ℕ
  kept now = retain (live window now)

  -- What has left the window stays outside.
  pub kept-kept :
      (now later : ℕ) (ts : List ℕ) → now ≤ later → kept later (kept now ts) ≡ kept later ts
  kept-kept now later [] h = refl
  kept-kept now later (t ∷ ts) h = ground (arith, kept-kept now later ts h)

  pub length-kept-le :
      (now later : ℕ) (ts : List ℕ) → now ≤ later → length (kept later ts) ≤ length (kept now ts)
  length-kept-le now later [] h = omega arith
  length-kept-le now later (t ∷ ts) h = ground (arith, length-kept-le now later ts h)

  -- `stored` shows, now and later, what the complete log shows.
  pub record Shows (max : ℕ) (last : ℕ) (stored log : List ℕ) : Type 0 where
    pub same : (now : ℕ) → last ≤ now → kept now stored ≡ kept now log
    pub few : (now : ℕ) → last ≤ now → length (kept now log) ≤ max

  pub Shows-admit :
      (max last t : ℕ) (stored log : List ℕ)
      → last ≤ t
      → length (kept t stored) < max
      → Shows max last stored log
      → Shows max t (kept t stored ++ t ∷ []) (log ++ t ∷ [])
  Shows-admit max last t stored log h room s = record {
    same = λ now k. same_now now k;
    few = λ now k. few_now now k;
  }
    where
      same_now : (now : ℕ) → t ≤ now → kept now (kept t stored ++ t ∷ []) ≡ kept now (log ++ t ∷ [])
      same_now now k =
          rw (retain-append, retain-append)
            (ap (λ l. l ++ kept now (t ∷ []))
              (kept-kept t now stored k ∙ s.same now (le_trans h k)))

      few_now : (now : ℕ) → t ≤ now → length (kept now (log ++ t ∷ [])) ≤ max
      few_now now k = omega (
        arith,
        ap length (retain-append (live window now) log (t ∷ [])),
        length-append (kept now log) (kept now (t ∷ [])),
        length-retain-le (live window now) (t ∷ []),
        ap length (s.same now (le_trans h k)),
        length-kept-le t now stored k,
      )

  pub Shows-refuse :
      (max last t : ℕ) (stored log : List ℕ)
      → last ≤ t
      → Shows max last stored log
      → Shows max t (kept t stored) log
  Shows-refuse max last t stored log h s = record {
    same = λ now k. kept-kept t now stored k ∙ s.same now (omega arith);
    few = λ now k. s.few now (omega arith);
  }

  pub Shows-later :
      (max last t : ℕ) (stored log : List ℕ)
      → last ≤ t
      → Shows max last stored log
      → Shows max t stored log
  Shows-later max last t stored log h s = record {
    same = λ now k. s.same now (le_trans h k);
    few = λ now k. s.few now (le_trans h k);
  }
