-- ===== src/Wire/Messages.antt =====
-- src/wire.rs: whole conversations, one message after the other.
use mathlib.Core.List.{append_assoc, append-nil}
use xprotocol.Prelude.{ℕ, zero, suc, ◌+◌, ◌≤◌, ◌≡◌, refl, ap, ◌∙◌, List, [], ◌∷◌, ◌++◌, length, All}
use xprotocol.Error.{ok}
use xprotocol.Action.{Action, pure, ◌>>=◌, ◌>>◌}
use xprotocol.Wire.{AsyncWrite, AsyncRead, max_message_size, write_message, read_message}
use xprotocol.Wire.Frames.{frame, write_message-frame}
use xprotocol.Wire.Decoding.{read_message-frame}

abbrev pub Message : Type 0
Message = ℕ × List ℕ

abbrev pub Fits : Message → Type 0
Fits (msg_type, payload) = 2 + length payload ≤ max_message_size

abbrev pub frames : List Message → List ℕ
frames [] = []
frames ((msg_type, payload) ∷ rest) = frame msg_type payload ++ frames rest

module _ (t : AsyncWrite) where
  open t use {W, sent, IsOpen}

  unfoldable pub write_each : List Message → Action W (Unit {0})
  write_each [] = pure tt
  write_each ((msg_type, payload) ∷ rest) = write_message t msg_type payload >> write_each rest

  pub write_each-frames :
      (ms : List Message) (w : W)
      → IsOpen w
      → All Fits ms
      → (w' : W) × (write_each ms w ≡ (ok tt, w')) × (sent w' ≡ sent w ++ frames ms) × IsOpen w'
  unfolding write_each
  write_each-frames [] w h fits = (w, refl, rw append-nil, h)
  write_each-frames ((msg_type, payload) ∷ rest) w h fits =
      let (w1, e1, s1, o1) = write_message-frame t msg_type payload w h fits.0 in
      let (w2, e2, s2, o2) = write_each-frames rest w1 o1 fits.1 in
      (w2, rw e1 e2, rw (s2, s1) (append_assoc (sent w) (frame msg_type payload) (frames rest)), o2)

module _ (t : AsyncRead) where
  open t use {R, pending}

  unfoldable pub read_each : ℕ → Action R (List Message)
  read_each zero = pure []
  read_each (suc n) = do m ← read_message t; ms ← read_each n; pure (m ∷ ms)

  pub read_each-frames :
      (ms : List Message) (rest : List ℕ) (r : R)
      → All Fits ms
      → pending r ≡ frames ms ++ rest
      → (r' : R) × (read_each (length ms) r ≡ (ok ms, r')) × (pending r' ≡ rest)
  unfolding read_each
  read_each-frames [] rest r fits h = (r, refl, h)
  read_each-frames ((msg_type, payload) ∷ ms) rest r fits h =
      let (r1, e1, p1) =
        read_message-frame t msg_type payload (frames ms ++ rest) r fits.0
          (h ∙ append_assoc (frame msg_type payload) (frames ms) rest) in
      let (r2, e2, p2) = read_each-frames ms rest r1 fits.1 p1 in (r2, rw (e1, e2), p2)

-- Any sequence of messages within the size limit, written to an open stream that has sent nothing
-- yet and read from a stream that delivers what was sent and then `rest`, comes back unchanged and
-- in order; every write and every read succeeds, and `rest` is left unread.
pub read_each-write_each :
    (tw : AsyncWrite) (tr : AsyncRead) (ms : List Message) (rest : List ℕ) (w : tw.W) (r : tr.R)
    → All Fits ms
    → tw.IsOpen w
    → tw.sent w ≡ []
    → tr.pending r ≡ tw.sent (write_each tw ms w).1 ++ rest
    → ((write_each tw ms w).0 ≡ ok tt)
      × ((r' : tr.R) × (read_each tr (length ms) r ≡ (ok ms, r')) × (tr.pending r' ≡ rest))
read_each-write_each tw tr ms rest w r fits open_w fresh arrives =
    let (w', e, s, _) = write_each-frames tw ms w open_w fits in
    let bytes : tw.sent w' ≡ frames ms = s ∙ ap (λ b. b ++ frames ms) fresh in
    (
      ap (λ x. x.0) e,
      read_each-frames tr ms rest r fits
          (arrives ∙ ap (λ x. tw.sent x.1 ++ rest) e ∙ ap (λ b. b ++ rest) bytes),
    )
