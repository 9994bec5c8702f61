-- ===== src/Prelude/Decimal/RoundTrip.antt =====
-- `int` on what `str` prints.
use Prim.Native.Nat.{ℕ, zero, suc, ◌+◌, ◌*◌, ◌/◌, ◌%◌, ◌≤◌, ◌<◌}
use mathlib.Core.Bool.{Bool, true, false}
use mathlib.Core.List.{[], ◌∷◌}
use mathlib.Core.Option.{some}
use mathlib.Core.Path.{◌≡◌}
use mathlib.Core.Logic.{inl, inr}
use native.Mathlib.Omega.{arith}
use pmu_roboflex.Prelude.Tests.{ltb, Bool-cases}
use pmu_roboflex.Prelude.Texts.{Text}
use pmu_roboflex.Prelude.Lists.{All}
use pmu_roboflex.Prelude.Int.{ℤ, pos, negsuc}
use pmu_roboflex.Prelude.Decimal.{digits, decimal_digits, str_nat, str_int, scan, negate, parse_int}

-- The ASCII digits.
abbrev pub IsDigit : ℕ → Type 0
IsDigit c = (b'0' ≤ c) × (c ≤ b'9')

scan_digit :
    (d n : ℕ) (out : Text) (b : Bool)
    → d < 10
    → scan ((b'0' + d) ∷ out) n b ≡ scan out (n * 10 + d) true
unfolding scan
scan_digit d n out b h = ground (arith, decimal_digits d h)

scan-digits :
    (f n : ℕ) (out : Text) (b : Bool) → n < f → scan (digits f n out) 0 b ≡ scan out n true
unfolding digits
scan-digits zero n out b h = absurd (omega arith)
scan-digits (suc f) n out b h = ground (
  arith,
  scan_digit n 0 out b,
  scan_digit (n % 10) (n / 10) out true (omega arith),
  scan-digits f (n / 10) ((b'0' + n % 10) ∷ out) b,
)

-- The print begins with a digit and holds nothing else.
digits-All : (f n : ℕ) (out : Text) → n < f → All IsDigit out → All IsDigit (digits f n out)
unfolding digits
digits-All zero n out h a = absurd (omega arith)
digits-All (suc f) n out h a = ground (arith, digits-All f (n / 10) ((b'0' + n % 10) ∷ out))

pub str_nat-All : (n : ℕ) → All IsDigit (str_nat n)
unfolding str_nat
str_nat-All n = digits-All (suc n) n [] (omega arith) tt

digits-cons :
    (f n : ℕ) (out : Text)
    → n < f
    → (d : ℕ) × (rest : Text) × (digits f n out ≡ (b'0' + d) ∷ rest) × (d < 10)
unfolding digits
digits-cons zero n out h = absurd (omega arith)
digits-cons (suc f) n out h = elim (Bool-cases (ltb n 10)) [
  | inl small ↦ (n, out, rw small, ground arith)
  | inr large ↦ rw large (digits-cons f (n / 10) ((b'0' + n % 10) ∷ out) (ground arith))
]

pub str_nat-cons : (n : ℕ) → (d : ℕ) × (rest : Text) × (str_nat n ≡ (b'0' + d) ∷ rest) × (d < 10)
unfolding str_nat
str_nat-cons n = digits-cons (suc n) n [] (omega arith)

scan-str_nat : (n : ℕ) → scan (str_nat n) 0 false ≡ some n
unfolding str_nat scan
scan-str_nat n = scan-digits (suc n) n [] false (omega arith)

parse_int-str_nat : (n : ℕ) → parse_int (str_nat n) ≡ some (pos n)
unfolding parse_int
parse_int-str_nat n =
    let (d, rest, e, small) = str_nat-cons n in
    let read : scan ((b'0' + d) ∷ rest) 0 false ≡ some n = rw (← e) (scan-str_nat n) in
    rw e (ground (arith, read))

pub parse_int-str_int : (i : ℤ) → parse_int (str_int i) ≡ some i
unfolding str_int
parse_int-str_int (pos n) = parse_int-str_nat n
parse_int-str_int (negsuc n) = unfold parse_int negate in rw scan-str_nat
