-- ===== src/Wire/Frames.antt =====
-- src/wire.rs: what `write_message` puts on the stream.
use xprotocol.Prelude.{
  ℕ, ◌+◌, ◌%◌, ◌≤◌, ◌<◌, ◌≡◌, ap, ◌∙◌, List, [], ◌∷◌, ◌++◌, length, u32_mod, ◌⊎◌, inl, inr, arith,
  ltb, ltb-false, lt→ltb, ltb→lt, Bool-cases,
}
use xprotocol.Error.{ok, err, io_ok, invalid_message}
use xprotocol.Wire.{AsyncWrite, max_message_size, to_be_bytes, write_message}
use mathlib.Core.List.{append_assoc}

-- The length of what follows, big-endian; the type; the version; the payload.
abbrev pub frame : ℕ → List ℕ → List ℕ
frame msg_type payload = to_be_bytes (2 + length payload) ++ msg_type ∷ 1 ∷ payload

to_be_bytes-mod : (n : ℕ) → to_be_bytes (n % u32_mod) ≡ to_be_bytes n
to_be_bytes-mod n = ground arith

append_parts :
    (a b d p : List ℕ) (x y : ℕ) (e f g : List ℕ)
    → e ≡ a ++ b
    → f ≡ e ++ x ∷ []
    → g ≡ f ++ y ∷ []
    → d ≡ g ++ p
    → d ≡ a ++ (b ++ x ∷ y ∷ p)
append_parts a b d p x y e f g h1 h2 h3 h4 = rw (h4, h3, h2, h1) (simp append_assoc)

module _ (t : AsyncWrite) where
  open t use {W, write_all, flush, sent, IsOpen, write_all_open, flush_open}

  write_steps :
      (msg_type : ℕ) (payload : List ℕ) (w w1 w2 w3 w4 w5 : W)
      → 2 + length payload ≤ max_message_size
      → write_all (to_be_bytes ((2 + length payload) % u32_mod)) w ≡ (io_ok tt, w1)
      → write_all (msg_type ∷ []) w1 ≡ (io_ok tt, w2)
      → write_all (1 ∷ []) w2 ≡ (io_ok tt, w3)
      → write_all payload w3 ≡ (io_ok tt, w4)
      → flush w4 ≡ (io_ok tt, w5)
      → write_message t msg_type payload w ≡ (ok tt, w5)
  unfolding write_message
  write_steps msg_type payload w w1 w2 w3 w4 w5 h e1 e2 e3 e4 e5 =
      rw (ltb-false max_message_size (2 + length payload) h) (rw (e1, e2, e3, e4, e5))

  pub write_message-frame :
      (msg_type : ℕ) (payload : List ℕ) (w : W)
      → IsOpen w
      → 2 + length payload ≤ max_message_size
      → (w' : W) × (write_message t msg_type payload w ≡ (ok tt, w'))
        × (sent w' ≡ sent w ++ frame msg_type payload)
        × IsOpen w'
  write_message-frame msg_type payload w h small =
      let (w1, e1, s1, o1) = write_all_open w (to_be_bytes ((2 + length payload) % u32_mod)) h in
      let (w2, e2, s2, o2) = write_all_open w1 (msg_type ∷ []) o1 in
      let (w3, e3, s3, o3) = write_all_open w2 (1 ∷ []) o2 in
      let (w4, e4, s4, o4) = write_all_open w3 payload o3 in
      let (w5, e5, s5, o5) = flush_open w4 o4 in
      (
        w5,
        write_steps msg_type payload w w1 w2 w3 w4 w5 small e1 e2 e3 e4 e5,
        s5
            ∙ append_parts (sent w) (to_be_bytes (2 + length payload)) (sent w4) payload msg_type 1
                (sent w1) (sent w2) (sent w3)
                (s1 ∙ ap (λ b. sent w ++ b) (to_be_bytes-mod (2 + length payload))) s2 s3 s4,
        o5,
      )

  pub write_message_too_large :
      (msg_type : ℕ) (payload : List ℕ) (w : W)
      → max_message_size < 2 + length payload
      → write_message t msg_type payload w ≡ (err (invalid_message "message too large"), w)
  unfolding write_message
  write_message_too_large msg_type payload w h = rw (lt→ltb max_message_size (2 + length payload) h)

  -- On an open stream `write_message` succeeds exactly when type, version and payload fit the size
  -- limit, and then the peer is sent the frame and no more; above the limit it reports an invalid
  -- message and sends nothing.
  pub write_message_outcome :
      (msg_type : ℕ) (payload : List ℕ) (w : W)
      → IsOpen w
      → ((2 + length payload ≤ max_message_size)
          × ((w' : W) × (write_message t msg_type payload w ≡ (ok tt, w'))
              × (sent w' ≡ sent w ++ frame msg_type payload)
              × IsOpen w'))
        ⊎ ((max_message_size < 2 + length payload)
            × (write_message t msg_type payload w ≡ (err (invalid_message "message too large"), w)))
  write_message_outcome msg_type payload w h =
      elim (Bool-cases (ltb max_message_size (2 + length payload))) [
        | inl e ↦
            let large = ltb→lt max_message_size (2 + length payload) e in
            inr (large, write_message_too_large msg_type payload w large)
        | inr e ↦
            let small : 2 + length payload ≤ max_message_size = ground arith in
            inl (small, write_message-frame msg_type payload w h small)
      ]
