-- ===== src/Wire/Refused.antt =====
-- src/wire.rs: the error paths of `read_message`.
use xprotocol.Prelude.{
  ℕ, ◌-◌, ◌<◌, ◌≡◌, ◌⊎◌, inl, inr, subst, true, List, ◌++◌, length, arith, ltb, Bool-cases, decimal,
  str_append,
}
use xprotocol.Error.{
  ProtocolError, Result, ok, err, invalid_message, connection_failed, IoResult, io_ok, io_err,
}
use xprotocol.Action.{Action, continue, io, after_io}
use xprotocol.Wire.{
  AsyncRead, max_message_size, from_be_bytes, out_of_range, read_payload, read_body, read_message,
}

-- the two kinds of error that reading gives
abbrev pub IsReadError : ProtocolError → Type 0
IsReadError (connection_failed e) = Unit
IsReadError (invalid_message e) = Unit
IsReadError e = ⊥

-- If the result is an error, it is one of those.
abbrev FailsByRead {ℓ} : {S A : Type ℓ} → Result A × S → Type 0
FailsByRead (ok a, s) = Unit
FailsByRead (err e, s) = IsReadError e

after_io-FailsByRead {ℓ} : {S A : Type ℓ} (x : IoResult A × S) → FailsByRead (after_io x)
after_io-FailsByRead (io_ok a, s) = tt
after_io-FailsByRead (io_err e, s) = tt

continue-FailsByRead {ℓ} :
    {S A B : Type ℓ} (x : Result A × S) (f : A → Action S B)
    → FailsByRead x
    → ((a : A) (s : S) → FailsByRead (f a s))
    → FailsByRead (continue x f)
continue-FailsByRead (ok a, s) f h k = k a s
continue-FailsByRead (err e, s) f h k = h

out_of_range_word : (n : ℕ) → ((n < 2) ⊎ (max_message_size < n)) → out_of_range n ≡ true
unfolding out_of_range
out_of_range_word n h = ground arith

module _ (t : AsyncRead) where
  open t use {R, read_exact, pending, read_exact_ready}

  read_payload-FailsByRead : (n : ℕ) (r : R) → FailsByRead (read_payload t n r)
  unfolding read_payload
  read_payload-FailsByRead n r = elim (Bool-cases (ltb 0 n)) [
    | inl e ↦ rw e (after_io-FailsByRead (read_exact n r))
    | inr e ↦ rw e tt
  ]

  read_body-FailsByRead : (n : ℕ) (r : R) → FailsByRead (read_body t n r)
  unfolding read_body
  read_body-FailsByRead n r = elim (Bool-cases (out_of_range n)) [
    | inl e ↦ rw e tt
    | inr e ↦ rw e (
        continue-FailsByRead (io (read_exact 1) r) _ (after_io-FailsByRead (read_exact 1 r)) λ a s.
          continue-FailsByRead (io (read_exact 1) s) _ (after_io-FailsByRead (read_exact 1 s))
            λ b s'.
              continue-FailsByRead (read_payload t (n - 2) s') _
                (read_payload-FailsByRead (n - 2) s') λ c s''. tt)
  ]

  -- Reading fails only by an error of the connection or by a length out of range; in particular
  -- it never gives `ConnectionClosed`, also not at the end of the stream.
  pub read_message-IsReadError :
      (r r' : R) (e : ProtocolError) → read_message t r ≡ (err e, r') → IsReadError e
  unfolding read_message
  read_message-IsReadError r r' e h = subst FailsByRead h all
    where
      all : FailsByRead (read_message t r)
      all =
          continue-FailsByRead (io (read_exact 4) r) _ (after_io-FailsByRead (read_exact 4 r))
            λ b s. read_body-FailsByRead (from_be_bytes b) s

  -- A length below 2 or above the limit is refused, and exactly its four bytes are consumed: what
  -- follows on the stream is then read as the next header.
  pub read_message_bad_length :
      (header rest : List ℕ) (r : R)
      → length header ≡ 4
      → (from_be_bytes header < 2) ⊎ (max_message_size < from_be_bytes header)
      → pending r ≡ header ++ rest
      → (r' : R) × (read_message t r ≡ (
        err (invalid_message (str_append "invalid length: " (decimal (from_be_bytes header)))),
        r',
      ))
        × (pending r' ≡ rest)
  unfolding read_message
  read_message_bad_length header rest r four bad h =
      let (r', e, p) = read_exact_ready r header rest h in
      let e4 : read_exact 4 r ≡ (io_ok header, r') = rw (← four) e in
      (r', rw e4 (unfold read_body in rw (out_of_range_word (from_be_bytes header) bad)), p)
