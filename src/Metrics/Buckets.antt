-- ===== src/Metrics/Buckets.antt =====
-- src/metrics.rs: the buckets of a histogram, beside the values that were counted in them.
use xprotocol.Prelude.{
  ℕ, suc, ◌+◌, ◌%◌, ◌<◌, ◌≤◌, ◌≡◌, ◌∙◌, refl, sym, ap, subst, false, List, [], ◌∷◌, length, leb,
  ltb, ltb→lt, leb-false, le→leb, arith, u64_mod, fetch_add, Bool-cases, inl, inr, if◌then◌else◌,
}
use xprotocol.Metrics.{bucket_of, increment_at}
use xprotocol.Metrics.Snapshots.{last_bound, bound_at, walk}

-- how many values are at most the bound
abbrev pub count_le : ℕ → List ℕ → ℕ
count_le b [] = 0
count_le b (v ∷ vs) = (if leb v b then 1 else 0) + count_le b vs

-- the first bound that so many of the values are at most, else the given one
abbrev pub quantile : ℕ → ℕ → List ℕ → List ℕ → ℕ
quantile last rank vs [] = last
quantile last rank vs (b ∷ bs) = if leb rank (count_le b vs) then b else quantile last rank vs bs

-- ascending, from the given number on
abbrev pub Ascending : ℕ → List ℕ → Type 0
Ascending a [] = Unit
Ascending a (b ∷ bs) = (a ≤ b) × Ascending b bs

-- The buckets from some place on, with `below` values in those before: with each bucket, the values
-- so far are those that are at most its bound, and in the end they are all.
abbrev pub Counts : List ℕ → List ℕ → ℕ → List ℕ → Type 0
Counts [] [] below vs = ⊥
Counts [] (c ∷ []) below vs = below + c ≡ length vs
Counts [] (c ∷ d ∷ cs) below vs = ⊥
Counts (b ∷ bs) [] below vs = ⊥
Counts (b ∷ bs) (c ∷ cs) below vs = (below + c ≡ count_le b vs) × Counts bs cs (below + c) vs

count_le-le : (b : ℕ) (vs : List ℕ) → count_le b vs ≤ length vs
count_le-le b [] = omega arith
count_le-le b (v ∷ vs) = ground (arith, count_le-le b vs)

count_le-in : (v b : ℕ) (vs : List ℕ) → v ≤ b → count_le b (v ∷ vs) ≡ suc (count_le b vs)
count_le-in v b vs h = rw (le→leb v b h) (omega arith)

count_le-out : (v b : ℕ) (vs : List ℕ) → b < v → count_le b (v ∷ vs) ≡ count_le b vs
count_le-out v b vs h = rw (leb-false v b h) (omega arith)

-- a value that is in an earlier bucket
earlier-Counts :
    (bs cs : List ℕ) (below a v : ℕ) (vs : List ℕ)
    → Ascending a bs
    → v ≤ a
    → Counts bs cs below vs
    → Counts bs cs (below + 1) (v ∷ vs)
earlier-Counts [] [] below a v vs up le h = h
earlier-Counts [] (c ∷ []) below a v vs up le h = omega (arith, h)
earlier-Counts [] (c ∷ d ∷ cs) below a v vs up le h = h
earlier-Counts (b ∷ bs) [] below a v vs up le h = h
earlier-Counts (b ∷ bs) (c ∷ cs) below a v vs (ab, up) le (h, hs) = (
  omega (arith, h, count_le-in v b vs (omega (arith, le, ab))),
  subst (λ n. Counts bs cs n (v ∷ vs)) (omega arith)
      (earlier-Counts bs cs (below + c) b v vs up (omega (arith, le, ab)) hs),
)

ltb-false→le : (b v : ℕ) → ltb b v ≡ false → v ≤ b
ltb-false→le b v h = ground (arith, h)

-- a value that goes to its bucket
pub increment_at-Counts :
    (bs cs : List ℕ) (below a v : ℕ) (vs : List ℕ)
    → Ascending a bs
    → suc (length vs) < u64_mod
    → Counts bs cs below vs
    → Counts bs (increment_at (bucket_of v bs) cs) below (v ∷ vs)
unfolding increment_at bucket_of
increment_at-Counts [] [] below a v vs up few h = h
increment_at-Counts [] (c ∷ []) below a v vs up few h = omega (arith, h, few)
increment_at-Counts [] (c ∷ d ∷ cs) below a v vs up few h = elim h [ ]
increment_at-Counts (b ∷ bs) [] below a v vs up few h = elim h [ ]
increment_at-Counts (b ∷ bs) (c ∷ cs) below a v vs (ab, up) few (h, hs) =
    elim (Bool-cases (ltb b v)) [
      | inl over ↦ rw over (
        h ∙ sym (count_le-out v b vs (ltb→lt b v over)),
        increment_at-Counts bs cs (below + c) b v vs up few hs,
      )
      | inr within ↦ rw within (
        fits ∙ sym (count_le-in v b vs (ltb-false→le b v within)),
        subst (λ n. Counts bs cs n (v ∷ vs)) (omega (arith, h, fits))
            (earlier-Counts bs cs (below + c) b v vs up (ltb-false→le b v within) hs),
      )
    ]
  where
    fits : below + fetch_add c 1 ≡ suc (count_le b vs)
    fits = omega (arith, h, few, count_le-le b vs)

-- the places of the bounds in the list of all of them
abbrev pub Placed : ℕ → List ℕ → List ℕ → Type 0
Placed i all [] = bound_at i all all ≡ last_bound all
Placed i all (b ∷ bs) = (bound_at i all all ≡ b) × Placed (suc i) all bs

pub walk-quantile :
    (rank i below : ℕ) (all bs cs vs : List ℕ)
    → Placed i all bs
    → length vs < u64_mod
    → Counts bs cs below vs
    → walk rank all i below cs ≡ quantile (last_bound all) rank vs bs
unfolding walk
walk-quantile rank i below all [] [] vs p few h = elim h [ ]
walk-quantile rank i below all [] (c ∷ []) vs p few h =
    elim (Bool-cases (leb rank ((below + c) % u64_mod))) [ inl e ↦ rw e p | inr e ↦ rw e refl ]
walk-quantile rank i below all [] (c ∷ d ∷ cs) vs p few h = elim h [ ]
walk-quantile rank i below all (b ∷ bs) [] vs p few h = elim h [ ]
walk-quantile rank i below all (b ∷ bs) (c ∷ cs) vs (at, p) few (h, hs) =
    rw (sum, at)
      (ap (λ n. if leb rank n then b else walk rank all (suc i) (below + c) cs) h
        ∙ ap (λ n. if leb rank (count_le b vs) then b else n)
            (walk-quantile rank (suc i) (below + c) all bs cs vs p few hs))
  where
    sum : (below + c) % u64_mod ≡ below + c
    sum = omega (arith, h, few, count_le-le b vs)
