-- ===== src/Wire/Accepted.antt =====
-- src/wire.rs: what a successful `read_message` says of the stream.
use mathlib.Core.Path.{ap₂}
use xprotocol.Prelude.{
  ℕ, ◌+◌, ◌-◌, ◌≤◌, ◌≡◌, refl, ap, ◌∙◌, true, false, List, [], ◌∷◌, ◌++◌, length, get_or, arith,
  ltb, Bool-cases, inl, inr,
}
use xprotocol.Error.{ok}
use xprotocol.Action.{Action, continue-eq-ok, io-eq-ok, io-bind-eq-ok, io, pure, ◌>>=◌}
use xprotocol.Wire.{
  AsyncRead, max_message_size, from_be_bytes, out_of_range, read_payload, read_body, read_message,
}
use xprotocol.Wire.Decoding.{range_of}

singleton_lem : (xs : List ℕ) → length xs ≡ 1 → xs ≡ get_or xs 0 0 ∷ []
singleton_lem [] h = absurd (omega arith)
singleton_lem (x ∷ []) h = refl
singleton_lem (x ∷ y ∷ xs) h = absurd (omega arith)

assemble :
    (header tb vb payload : List ℕ) (m v : ℕ) (a b c d e : List ℕ)
    → a ≡ header ++ b
    → b ≡ tb ++ c
    → tb ≡ m ∷ []
    → c ≡ vb ++ d
    → vb ≡ v ∷ []
    → d ≡ payload ++ e
    → a ≡ header ++ (m ∷ v ∷ (payload ++ e))
assemble header tb vb payload m v a b c d e h1 h2 h3 h4 h5 h6 = rw (h1, h2, h3, h4, h5, h6)

module _ (t : AsyncRead) where
  open t use {R, read_exact, pending, read_exact_ready, read_exact_got}

  -- The message that was read, as it stood on the stream: four bytes that give the length of the
  -- rest, the type, a version byte of any value, the payload.
  pub record Framed (msg_type : ℕ) (payload : List ℕ) (r r' : R) : Type 0 where
    pub header : List ℕ
    pub version : ℕ
    pub four : length header ≡ 4
    pub size : from_be_bytes header ≡ 2 + length payload
    pub bounded : 2 + length payload ≤ max_message_size
    pub taken : pending r ≡ header ++ (msg_type ∷ version ∷ (payload ++ pending r'))

  read_payload_got :
      (n : ℕ) (r r' : R) (payload : List ℕ)
      → read_payload t n r ≡ (ok payload, r')
      → (length payload ≡ n) × (pending r ≡ payload ++ pending r')
  unfolding read_payload
  read_payload_got n r r' payload h = elim (Bool-cases (ltb 0 n)) [
    | inl e ↦ read_exact_got n r r' payload (io-eq-ok (read_exact n) r (rw e at h))
    | inr e ↦ ground arith
  ]

  body_got :
      (n msg_type : ℕ) (payload header : List ℕ) (r0 r r' : R)
      → length header ≡ 4
      → from_be_bytes header ≡ n
      → pending r0 ≡ header ++ pending r
      → read_body t n r ≡ (ok (msg_type, payload), r')
      → Framed msg_type payload r0 r'
  unfolding read_body
  body_got n msg_type payload header r0 r r' four size front h =
      elim (Bool-cases (out_of_range n)) [ inl e ↦ absurd (refused e) | inr e ↦ good e ]
    where
      refused : out_of_range n ≡ true → ⊥
      refused e = cc (rw e at h)

      finish : List ℕ → List ℕ → Action R (ℕ × List ℕ)
      finish type_buf bytes = pure (get_or type_buf 0 0, bytes)

      after_version : List ℕ → List ℕ → Action R (ℕ × List ℕ)
      after_version type_buf version_buf = read_payload t (n - 2) >>= finish type_buf

      after_type : List ℕ → Action R (ℕ × List ℕ)
      after_type type_buf = io (read_exact 1) >>= after_version type_buf

      good : out_of_range n ≡ false → Framed msg_type payload r0 r'
      good e =
          let (type_buf, r1, e1, h1) = io-bind-eq-ok (read_exact 1) after_type r (rw e at h) in
          let (version_buf, r2, e2, h2) =
            io-bind-eq-ok (read_exact 1) (after_version type_buf) r1 h1 in
          let (bytes, r3, e3, h3) =
            continue-eq-ok (read_payload t (n - 2) r2) (finish type_buf) h2 in
          let (one_type, p1) = read_exact_got 1 r r1 type_buf e1 in
          let (one_version, p2) = read_exact_got 1 r1 r2 version_buf e2 in
          let (fits, p3) = read_payload_got (n - 2) r2 r3 bytes e3 in
          let (lo, hi) = range_of n e in
          let same_type : get_or type_buf 0 0 ≡ msg_type = ground arith in
          let same_bytes : bytes ≡ payload = ground arith in
          let same_stream : r3 ≡ r' = ground arith in
          record {
            header = header;
            version = get_or version_buf 0 0;
            four = four;
            size = omega (arith, ap length same_bytes);
            bounded = omega (arith, ap length same_bytes);
            taken =
                assemble header type_buf version_buf payload msg_type (get_or version_buf 0 0)
                  (pending r0) (pending r) (pending r1) (pending r2) (pending r') front (p1)
                  (singleton_lem type_buf one_type ∙ ap (λ m. m ∷ []) same_type) p2
                  (singleton_lem version_buf one_version)
                  (p3 ∙ ap₂ (λ b q. b ++ pending q) same_bytes same_stream);
          }

  -- Whatever `read_message` accepts was framed on the stream as `write_message` frames it, up to
  -- the version byte, and its length is within the limit.
  pub read_message-Framed :
      (msg_type : ℕ) (payload : List ℕ) (r r' : R)
      → read_message t r ≡ (ok (msg_type, payload), r')
      → Framed msg_type payload r r'
  unfolding read_message
  read_message-Framed msg_type payload r r' h =
      let (header, r1, e1, h1) =
        io-bind-eq-ok (read_exact 4) (λ len_buf. read_body t (from_be_bytes len_buf)) r h in
      let (four, p1) = read_exact_got 4 r r1 header e1 in
      body_got (from_be_bytes header) msg_type payload header r r1 r' four refl p1 h1
