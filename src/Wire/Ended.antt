-- ===== src/Wire/Ended.antt =====
-- src/wire.rs: read_message on a stream that has ended.
use xprotocol.Prelude.{ℕ, ◌<◌, ◌≡◌, refl, String, arith}
use xprotocol.Error.{connection_failed, err, io_err}
use xprotocol.Wire.{AsyncRead, read_message}

-- A stream whose peer has closed it: every further read fails and leaves it so, as tokio documents
-- of `read_exact`.
pub record Ending (t : AsyncRead) : Type 1 where
  pub AtEnd : t.R → Type 0
  pub read_exact_end :
      (n : ℕ) (r : t.R)
      → AtEnd r
      → 0 < n
      → (e : String) × (r' : t.R) × (t.read_exact n r ≡ (io_err e, r')) × AtEnd r'

pub read_message-AtEnd :
    (t : AsyncRead) (x : Ending t) (r : t.R)
    → x.AtEnd r
    → (e : String) × (r' : t.R) × (read_message t r ≡ (err (connection_failed e), r')) × x.AtEnd r'
unfolding read_message
read_message-AtEnd t x r a =
    let (e, r', h, b) = x.read_exact_end 4 r a (omega arith) in (e, r', rw h refl, b)
