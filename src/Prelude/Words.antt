-- ===== src/Prelude/Words.antt =====
-- Machine integers: `usize` and `u64` are 64 bits wide, and the atomic updates wrap.
use Prim.Native.Nat.{ℕ, ◌+◌, ◌-◌, ◌%◌, ◌^◌}

abbrev pub u64_mod : ℕ
u64_mod = 2 ^ 64

abbrev pub u32_mod : ℕ
u32_mod = 2 ^ 32

-- `fetch_add` and `fetch_sub` of `AtomicUsize` and `AtomicU64`: what is stored.
abbrev pub fetch_add : ℕ → ℕ → ℕ
fetch_add a k = (a + k) % u64_mod

abbrev pub fetch_sub : ℕ → ℕ → ℕ
fetch_sub a k = (a + u64_mod - k) % u64_mod
