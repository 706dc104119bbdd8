-- ===== src/Wire/Transport.antt =====
-- The byte streams that src/wire.rs is generic in: tokio's `AsyncRead` and `AsyncWrite`, which are
-- not part of the repository. The laws are what tokio documents of `write_all`, `flush` and
-- `read_exact` on an open stream.
use xprotocol.Prelude.{ℕ, ◌<◌, ◌≡◌, String, List, ◌++◌, length}
use xprotocol.Error.{IoResult, io_ok, io_err}

pub record AsyncWrite : Type 1 where
  pub W : Type 0
  pub write_all : List ℕ → W → IoResult (Unit {0}) × W
  pub flush : W → IoResult (Unit {0}) × W
  -- the bytes that the peer has been sent, and that the stream takes more
  pub sent : W → List ℕ
  pub IsOpen : W → Type 0
  pub write_all_open :
      (w : W) (bytes : List ℕ)
      → IsOpen w
      → (w' : W) × (write_all bytes w ≡ (io_ok tt, w')) × (sent w' ≡ sent w ++ bytes) × IsOpen w'
  pub flush_open :
      (w : W) → IsOpen w → (w' : W) × (flush w ≡ (io_ok tt, w')) × (sent w' ≡ sent w) × IsOpen w'

pub record AsyncRead : Type 1 where
  pub R : Type 0
  pub read_exact : ℕ → R → IoResult (List ℕ) × R
  -- the bytes that the stream has yet to deliver before it ends or fails
  pub pending : R → List ℕ
  pub read_exact_ready :
      (r : R) (bytes rest : List ℕ)
      → pending r ≡ bytes ++ rest
      → (r' : R) × (read_exact (length bytes) r ≡ (io_ok bytes, r')) × (pending r' ≡ rest)
  pub read_exact_got :
      (n : ℕ) (r r' : R) (bytes : List ℕ)
      → read_exact n r ≡ (io_ok bytes, r')
      → (length bytes ≡ n) × (pending r ≡ bytes ++ pending r')
  pub read_exact_short :
      (n : ℕ) (r : R)
      → length (pending r) < n
      → (e : String) × (r' : R) × (read_exact n r ≡ (io_err e, r'))
