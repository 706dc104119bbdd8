-- ===== src/Prelude/Decimal.antt =====
-- `format!("{}", n)` for an unsigned machine integer.
use Prim.Native.Nat.{ℕ, zero, suc, ◌/◌, ◌%◌}
use Prim.Native.String.{String, ◌++◌}
use mathlib.Core.Path.{◌≡◌, refl}
use xprotocol.Prelude.Tests.{ltb, ◌==◌, if◌then◌else◌}

digit : ℕ → String
digit n =
    if n == 0
    then "0"
    else if n == 1
    then "1"
    else if n == 2
    then "2"
    else if n == 3
    then "3"
    else if n == 4
    then "4"
    else if n == 5
    then "5"
    else if n == 6
    then "6"
    else if n == 7
    then "7"
    else if n == 8
    then "8"
    else "9"

digits : ℕ → ℕ → String
digits zero n = ""
digits (suc f) n =
    let more = digits f (n / 10) ++ digit (n % 10) in if ltb n 10 then digit n else more

-- A `u64` has 20 decimal digits at most.
unfoldable pub decimal : ℕ → String
unfolding digits digit
decimal n = digits 20 n

decimal_largest : decimal 18446744073709551615 ≡ "18446744073709551615"
unfolding decimal
decimal_largest = refl
