-- ===== src/Utils/Newest.antt =====
-- src/utils.rs: what the queue of dead letters keeps.
use mathlib.Core.List.{append_assoc, append-nil}
use xprotocol.Prelude.{
  ℕ, suc, ◌-◌, ◌≤◌, ◌<◌, ◌≡◌, refl, ap, sym, ◌∙◌, String, List, [], ◌∷◌, ◌++◌, length,
  length-append, drop, leb, leb→le, leb-false, arith, Bool-cases, inl, inr, if◌then◌else◌,
}
use xprotocol.Protocol.{ServiceRequest}
use xprotocol.Utils.{DeadLetter, DeadLetterQueue, new_queue, dead_letter, push, rest}

module _ {Value : Type 0} where
  -- what is pushed, in order: the time, the request and its error
  unfoldable pub push_all :
      DeadLetterQueue Value → List (ℕ × ServiceRequest Value × String) → DeadLetterQueue Value
  push_all q [] = q
  push_all q ((now, request, e) ∷ xs) = push_all (push now request e q) xs

  abbrev pub letters : List (ℕ × ServiceRequest Value × String) → List (DeadLetter Value)
  letters [] = []
  letters ((now, request, e) ∷ xs) = dead_letter now request e ∷ letters xs

module _ {ℓ} {A : Type ℓ} where
  -- the last `n`
  abbrev pub newest : ℕ → List A → List A
  newest n xs = drop (length xs - n) xs

  newest_all : (n : ℕ) (xs : List A) → length xs ≤ n → newest n xs ≡ xs
  newest_all n xs h =
      let none_over : length xs - n ≡ 0 = omega (arith, h) in ap (λ k. drop k xs) none_over

  newest_cons : (n : ℕ) (x : A) (xs : List A) → n ≤ length xs → newest n (x ∷ xs) ≡ newest n xs
  newest_cons n x xs h =
      let one_more : length (x ∷ xs) - n ≡ suc (length xs - n) = omega (arith, h) in
      ap (λ k. drop k (x ∷ xs)) one_more

  -- the front makes room where the queue is full
  abbrev shift : ℕ → List A → A → List A
  shift n q x = (if leb n (length q) then rest q else q) ++ x ∷ []

  length-shift-le : (n : ℕ) (q : List A) (x : A) → 0 < n → length q ≤ n → length (shift n q x) ≤ n
  length-shift-le n [] x pos fits = ground (arith, pos)
  length-shift-le n (y ∷ q) x pos fits =
      ground (arith, fits, length-append q (x ∷ []), length-append (y ∷ q) (x ∷ []))

  newest-shift :
      (n : ℕ) (q : List A) (x : A) (ys : List A)
      → 0 < n
      → length q ≤ n
      → newest n (shift n q x ++ ys) ≡ newest n (q ++ x ∷ ys)
  newest-shift n [] x ys pos fits = rw (leb-false n 0 pos) refl
  newest-shift n (y ∷ q) x ys pos fits = elim (Bool-cases (leb n (length (y ∷ q)))) [
    | inr room ↦ rw room (ap (newest n) (append_assoc (y ∷ q) (x ∷ []) ys))
    | inl full ↦ rw full (
        ap (newest n) (append_assoc q (x ∷ []) ys)
        ∙ sym (
            newest_cons n y (q ++ x ∷ ys)
              (omega (arith, leb→le n (length (y ∷ q)) full, length-append q (x ∷ ys)))))
  ]

module _ {Value : Type 0} where
  push_all-newest :
      (xs : List (ℕ × ServiceRequest Value × String)) (q : DeadLetterQueue Value)
      → 0 < q.max_size
      → length q.queue ≤ q.max_size
      → (push_all q xs).queue ≡ newest q.max_size (q.queue ++ letters xs)
  unfolding push_all push
  push_all-newest [] q pos fits =
      sym (ap (newest q.max_size) (append-nil q.queue) ∙ newest_all q.max_size q.queue fits)
  push_all-newest ((now, request, e) ∷ xs) q pos fits =
      let x = dead_letter now request e in
      push_all-newest xs (push now request e q) pos (length-shift-le q.max_size q.queue x pos fits)
      ∙ newest-shift q.max_size q.queue x (letters xs) pos fits

  -- Whatever is pushed to a new queue of positive size: the queue holds the letters that were pushed
  -- last, as many as its size allows, in the order in which they came; older ones are dropped.
  pub push_all-new_queue :
      (max_size : ℕ) (xs : List (ℕ × ServiceRequest Value × String))
      → 0 < max_size
      → (push_all (new_queue max_size) xs).queue ≡ newest max_size (letters xs)
  unfolding new_queue
  push_all-new_queue max_size xs pos = push_all-newest xs (new_queue max_size) pos (omega arith)
