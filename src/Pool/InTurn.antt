-- ===== src/Pool/InTurn.antt =====
-- src/pool.rs: one call after another on a pool, by a caller that awaits each before the next.
use xprotocol.Prelude.{◌≡◌, ◌∙◌, refl, ap, Option, none, some, List, [], ◌∷◌, ◌++◌}

module _ {P A : Type 0} where
  unfoldable pub attach : A → Option (List A × P) → Option (List A × P)
  attach r none = none
  attach r (some (rs, p)) = some (r ∷ rs, p)

  unfoldable pub follow : (P → Option (List A × P)) → Option (A × P) → Option (List A × P)
  unfolding attach
  follow more none = none
  follow more (some (r, p)) = attach r (more p)

module _ {P A B : Type 0} where
  -- each call begins when the one before it has ended; `none`: a call waits on, and the rest with it
  unfoldable pub in_turn : (B → P → Option (A × P)) → List B → P → Option (List A × P)
  unfolding follow
  in_turn one [] p = some ([], p)
  in_turn one (b ∷ bs) p = follow (in_turn one bs) (one b p)

module _ {P A : Type 0} where
  unfoldable pub after_these : List A → Option (List A × P) → Option (List A × P)
  after_these xs none = none
  after_these xs (some (ys, r)) = some (xs ++ ys, r)

  -- go on with what the first calls have left
  unfoldable pub join : (P → Option (List A × P)) → Option (List A × P) → Option (List A × P)
  unfolding after_these
  join more none = none
  join more (some (xs, q)) = after_these xs (more q)

  after_these-nil : (o : Option (List A × P)) → o ≡ after_these [] o
  unfolding after_these
  after_these-nil none = refl
  after_these-nil (some x) = refl

  attach-after_these :
      (x : A) (xs : List A) (o : Option (List A × P))
      → attach x (after_these xs o) ≡ after_these (x ∷ xs) o
  unfolding after_these attach
  attach-after_these x xs none = refl
  attach-after_these x xs (some y) = refl

  attach-join :
      (more : P → Option (List A × P)) (x : A) (o : Option (List A × P))
      → attach x (join more o) ≡ join more (attach x o)
  unfolding join attach
  attach-join more x none = refl
  attach-join more x (some (xs, q)) = attach-after_these x xs (more q)

  follow-join :
      (more f g : P → Option (List A × P))
      → ((p : P) → g p ≡ join more (f p))
      → (o : Option (A × P)) → follow g o ≡ join more (follow f o)
  unfolding follow join
  follow-join more f g h none = refl
  follow-join more f g h (some (x, p)) = ap (attach x) (h p) ∙ attach-join more x (f p)

module _ {P A B : Type 0} where
  -- Calls in two parts are the first and then the second.
  pub in_turn-append :
      (one : B → P → Option (A × P)) (bs cs : List B) (p : P)
      → in_turn one (bs ++ cs) p ≡ join (in_turn one cs) (in_turn one bs p)
  unfolding in_turn join
  in_turn-append one [] cs p = after_these-nil (in_turn one cs p)
  in_turn-append one (b ∷ bs) cs p =
      follow-join (in_turn one cs) (in_turn one bs) (in_turn one (bs ++ cs))
        (in_turn-append one bs cs) (one b p)
