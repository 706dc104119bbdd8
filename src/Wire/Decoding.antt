-- ===== src/Wire/Decoding.antt =====
-- src/wire.rs: what `read_message` takes from the stream.
use xprotocol.Prelude.{
  ℕ, suc, ◌+◌, ◌-◌, ◌≤◌, ◌<◌, ◌^◌, ◌≡◌, refl, ap, ◌∙◌, false, List, [], ◌∷◌, ◌++◌, length, arith,
  lt→ltb,
}
use xprotocol.Error.{ok, io_ok}
use xprotocol.Wire.{
  AsyncRead, max_message_size, to_be_bytes, from_be_bytes, out_of_range, read_payload, read_body,
  read_message,
}
use xprotocol.Wire.Frames.{frame}

from-to_be_bytes : (n : ℕ) → n < 2 ^ 32 → from_be_bytes (to_be_bytes n) ≡ n
unfolding from_be_bytes
from-to_be_bytes n h = omega arith

in_range : (n : ℕ) → n + 2 ≤ max_message_size → out_of_range (n + 2) ≡ false
unfolding out_of_range
in_range n h = ground arith

pub range_of : (n : ℕ) → out_of_range n ≡ false → (2 ≤ n) × (n ≤ max_message_size)
unfolding out_of_range
range_of n h = ground arith

module _ (t : AsyncRead) where
  open t use {R, read_exact, pending, read_exact_ready, read_exact_got}

  read_payload_ready :
      (r : R) (payload rest : List ℕ)
      → pending r ≡ payload ++ rest
      → (r' : R) × (read_payload t (length payload) r ≡ (ok payload, r')) × (pending r' ≡ rest)
  unfolding read_payload
  read_payload_ready r [] rest h = (r, refl, h)
  read_payload_ready r (b ∷ bs) rest h =
      let (r', e, p) = read_exact_ready r (b ∷ bs) rest h in
      (r', rw (lt→ltb 0 (suc (length bs)) (omega arith), e), p)

  body_steps :
      (n msg_type version : ℕ) (payload : List ℕ) (r1 r2 r3 r4 : R)
      → n + 2 ≤ max_message_size
      → read_exact 1 r1 ≡ (io_ok (msg_type ∷ []), r2)
      → read_exact 1 r2 ≡ (io_ok (version ∷ []), r3)
      → read_payload t n r3 ≡ (ok payload, r4)
      → read_body t (n + 2) r1 ≡ (ok (msg_type, payload), r4)
  unfolding read_body
  body_steps n msg_type version payload r1 r2 r3 r4 small e2 e3 e4 =
      let back : n + 2 - 2 ≡ n = omega arith in rw (in_range n small) (rw (e2, e3, back, e4))

  header_step :
      (hdr : List ℕ) (r r1 : R)
      → read_exact 4 r ≡ (io_ok hdr, r1)
      → read_message t r ≡ read_body t (from_be_bytes hdr) r1
  unfolding read_message
  header_step hdr r r1 e = rw e

  -- A frame that is on the stream is read as the message it was made of, and nothing after it is
  -- touched.
  pub read_message-frame :
      (msg_type : ℕ) (payload rest : List ℕ) (r : R)
      → 2 + length payload ≤ max_message_size
      → pending r ≡ frame msg_type payload ++ rest
      → (r' : R) × (read_message t r ≡ (ok (msg_type, payload), r')) × (pending r' ≡ rest)
  read_message-frame msg_type payload rest r small h =
      let size = 2 + length payload in
      let (r1, e1, p1) = read_exact_ready r (to_be_bytes size) (msg_type ∷ 1 ∷ payload ++ rest) h in
      let (r2, e2, p2) = read_exact_ready r1 (msg_type ∷ []) (1 ∷ payload ++ rest) p1 in
      let (r3, e3, p3) = read_exact_ready r2 (1 ∷ []) (payload ++ rest) p2 in
      let (r4, e4, p4) = read_payload_ready r3 payload rest p3 in
      let same : from_be_bytes (to_be_bytes size) ≡ length payload + 2 =
        from-to_be_bytes size (omega arith) ∙ omega arith in
      (
        r4,
        header_step (to_be_bytes size) r r1 e1
            ∙ ap (λ n. read_body t n r1) same
            ∙ body_steps (length payload) msg_type 1 payload r1 r2 r3 r4 (omega arith) e2 e3 e4,
        p4,
      )
