-- ===== src/Prelude/Decimal.antt =====
-- `str(n)` and `int(s)` on integers, as far as the programs use them.
mod Digits
pub mod RoundTrip
pub use Digits.{digit_value, decimal_digits}
use Prim.Native.Nat.{ℕ, zero, suc, ◌+◌, ◌-◌, ◌*◌, ◌/◌, ◌%◌}
use mathlib.Core.Bool.{Bool, true, false, ◌&&◌}
use mathlib.Core.List.{List, [], ◌∷◌}
use mathlib.Core.Option.{Option, none, some}
use mathlib.Core.Path.{◌≡◌, refl}
use pmu_roboflex.Prelude.Tests.{ltb, leb, ◌==◌, if◌then◌else◌, ◌>>=◌}
use pmu_roboflex.Prelude.Texts.{Text, codes}
use pmu_roboflex.Prelude.Int.{ℤ, pos, negsuc}

-- `str(n)` for a number that is not negative, in front of `out`; `suc n` rounds are enough.
digits : ℕ → ℕ → Text → Text
digits zero n out = out
digits (suc f) n out =
    let longer = digits f (n / 10) ((b'0' + n % 10) ∷ out) in
    if ltb n 10 then (b'0' + n) ∷ out else longer

unfoldable pub str_nat : ℕ → Text
unfolding digits
str_nat n = digits (suc n) n []

unfoldable pub str_int : ℤ → Text
unfolding str_nat
str_int (pos n) = str_nat n
str_int (negsuc n) = b'-' ∷ str_nat (suc n)

-- The digits behind a sign; an underscore may stand between two digits. `after_digit` says whether
-- the last character read was a digit.
scan : Text → ℕ → Bool → Option ℕ
scan [] n true = some n
scan [] n false = none
scan (c ∷ s) n after_digit = elim (digit_value c) [
  | some d ↦ scan s (n * 10 + d) true
  | none ↦ if c == b'_' && after_digit then scan s n false else none
]

negate : ℕ → ℤ
negate zero = pos 0
negate (suc n) = negsuc n

-- `int(s, 10)` of a text without white space; `none` is a ValueError.
unfoldable pub parse_int : Text → Option ℤ
unfolding scan negate digit_value
parse_int [] = none
parse_int (c ∷ s) =
    if c == b'-'
    then (do n ← scan s 0 false; some (negate n))
    else if c == b'+'
    then (do n ← scan s 0 false; some (pos n))
    else (do n ← scan (c ∷ s) 0 false; some (pos n))

str_int_test : str_int (negsuc 1204) ≡ codes "-1205"
unfolding str_int
str_int_test = refl

parse_int_test : parse_int (codes "-1_205") ≡ some (negsuc 1204)
unfolding parse_int
parse_int_test = refl

parse_int_refuses : (parse_int (codes "1__2") ≡ none) × (parse_int (codes "12a") ≡ none)
unfolding parse_int
parse_int_refuses = (refl, refl)
