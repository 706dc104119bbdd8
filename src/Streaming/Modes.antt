-- ===== src/Streaming/Modes.antt =====
-- src/streaming.rs: the names of the stream modes.
use xprotocol.Prelude.{◌≡◌, ◌↔◌, String, some, ap, eq_iff, arith}
use xprotocol.Streaming.{StreamMode, messages, values, updates, result, as_str, from_str}

-- `from_str` reads a mode from a text exactly where the text is what `as_str` prints for it.
pub from_str-as_str : (s : String) (m : StreamMode) → (from_str s ≡ some m) ↔ (s ≡ as_str m)
unfolding from_str as_str
from_str-as_str s messages = (
  λ h.
      ground
        (arith, h, eq_iff s "messages", eq_iff s "values", eq_iff s "updates", eq_iff s "result"),
  λ e. ap from_str e,
)
from_str-as_str s values = (
  λ h.
      ground
        (arith, h, eq_iff s "messages", eq_iff s "values", eq_iff s "updates", eq_iff s "result"),
  λ e. ap from_str e,
)
from_str-as_str s updates = (
  λ h.
      ground
        (arith, h, eq_iff s "messages", eq_iff s "values", eq_iff s "updates", eq_iff s "result"),
  λ e. ap from_str e,
)
from_str-as_str s result = (
  λ h.
      ground
        (arith, h, eq_iff s "messages", eq_iff s "values", eq_iff s "updates", eq_iff s "result"),
  λ e. ap from_str e,
)
