-- ===== src/Wire/Memory.antt =====
-- Streams in memory, as the tests use them: a list of bytes, and the law of each operation.
use mathlib.Core.Path.{ap₂}
use xprotocol.Wire.Ended.{Ending}
use xprotocol.Prelude.{
  ℕ, zero, suc, ◌<◌, ◌≡◌, ◌≤◌, String, sym, refl, ap, ◌∙◌, List, [], ◌∷◌, ◌++◌, length, take, drop,
  ltb, arith, false, if◌then◌else◌, length-append, ltb-false, lt→ltb, Bool-cases, inl, inr,
}
use xprotocol.Error.{IoResult, io_ok, io_err}
use xprotocol.Wire.Transport.{AsyncWrite, AsyncRead}

abbrev pub sink : AsyncWrite
sink = record {
  W = List ℕ;
  write_all = λ bytes w. (io_ok tt, w ++ bytes);
  flush = λ w. (io_ok tt, w);
  sent = λ w. w;
  IsOpen = λ w. Unit {0};
  write_all_open = λ w bytes h. (w ++ bytes, refl, refl, tt);
  flush_open = λ w h. (w, refl, refl, tt);
}

-- At the end of the stream nothing is taken, and tokio reports "early eof".
unfoldable pub read_bytes : ℕ → List ℕ → IoResult (List ℕ) × List ℕ
read_bytes n r = if ltb (length r) n then (io_err "early eof", r) else (io_ok (take n r), drop n r)

take-length-append : (a b : List ℕ) → take (length a) (a ++ b) ≡ a
take-length-append [] b = refl
take-length-append (x ∷ a) b = ap (λ l. x ∷ l) (take-length-append a b)

pub drop-length-append : (a b : List ℕ) → drop (length a) (a ++ b) ≡ b
drop-length-append [] b = refl
drop-length-append (x ∷ a) b = drop-length-append a b

pub read_bytes_ready :
    (r bytes rest : List ℕ)
    → r ≡ bytes ++ rest
    → (r' : List ℕ) × (read_bytes (length bytes) r ≡ (io_ok bytes, r')) × (r' ≡ rest)
unfolding read_bytes
read_bytes_ready r bytes rest h =
    let enough : ltb (length (bytes ++ rest)) (length bytes) ≡ false =
      ltb-false (length (bytes ++ rest)) (length bytes) (omega (arith, length-append bytes rest)) in
    (
      rest,
      rw h (rw enough (rw (take-length-append bytes rest, drop-length-append bytes rest))),
      refl,
    )

take-drop : (n : ℕ) (r : List ℕ) → r ≡ take n r ++ drop n r
take-drop zero r = refl
take-drop (suc n) [] = refl
take-drop (suc n) (x ∷ r) = ap (λ l. x ∷ l) (take-drop n r)

length-take_le : (n : ℕ) (r : List ℕ) → n ≤ length r → length (take n r) ≡ n
length-take_le zero r h = refl
length-take_le (suc n) [] h = absurd (omega arith)
length-take_le (suc n) (x ∷ r) h = ap suc (length-take_le n r (omega arith))

pub read_bytes_got :
    (n : ℕ) (r r' bytes : List ℕ)
    → read_bytes n r ≡ (io_ok bytes, r')
    → (length bytes ≡ n) × (r ≡ bytes ++ r')
unfolding read_bytes
read_bytes_got n r r' bytes h = elim (Bool-cases (ltb (length r) n)) [
  | inl e ↦ absurd (cc (rw e at h))
  | inr e ↦
      let h' : read_bytes n r ≡ (io_ok (take n r), drop n r) = rw (e, read_bytes) in
      let same_bytes : take n r ≡ bytes = ground arith in
      let same_rest : drop n r ≡ r' = ground arith in
      (
        ap length (sym same_bytes) ∙ length-take_le n r (ground arith),
        take-drop n r ∙ ap₂ (λ a b. a ++ b) same_bytes same_rest,
      )
]

pub read_bytes_short :
    (n : ℕ) (r : List ℕ)
    → length r < n
    → (e : String) × (r' : List ℕ) × (read_bytes n r ≡ (io_err e, r'))
unfolding read_bytes
read_bytes_short n r h = ("early eof", r, rw (lt→ltb (length r) n h))

abbrev pub source : AsyncRead
source = record {
  R = List ℕ;
  read_exact = read_bytes;
  pending = λ r. r;
  read_exact_ready = read_bytes_ready;
  read_exact_got = read_bytes_got;
  read_exact_short = read_bytes_short;
}

pub read_bytes-end :
    (n : ℕ) (r : List ℕ) → r ≡ [] → 0 < n → read_bytes n r ≡ (io_err "early eof", r)
unfolding read_bytes
read_bytes-end n r e k = rw e (rw (lt→ltb 0 n k))

-- a list of bytes is at its end where it is empty
abbrev pub ending : Ending source
ending = record {
  AtEnd = λ r. r ≡ [];
  read_exact_end = λ n r e k. ("early eof", r, read_bytes-end n r e k, e);
}
