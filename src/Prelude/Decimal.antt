-- ===== src/Prelude/Decimal.antt =====
-- `str(n)` of a natural number. The fuel is above the number of digits.
use Prim.Native.Nat.{ℕ, zero, suc, ◌/◌, ◌%◌}
use Prim.Native.String.{String, ◌++◌}
use mathlib.Core.List.{[], ◌∷◌}
use karo_x2_sdk_python.Prelude.Tests.{ltb, if◌then◌else◌}
use karo_x2_sdk_python.Prelude.Lists.{get_or}

digit : ℕ → String
digit d = get_or ("0" ∷ "1" ∷ "2" ∷ "3" ∷ "4" ∷ "5" ∷ "6" ∷ "7" ∷ "8" ∷ "9" ∷ []) d ""

digits_from : ℕ → ℕ → String
unfolding digit
digits_from zero n = ""
digits_from (suc fuel) n =
    let front = digits_from fuel (n / 10) in if ltb n 10 then digit n else front ++ digit (n % 10)

unfoldable pub str : ℕ → String
unfolding digits_from
str n = digits_from (suc n) n
