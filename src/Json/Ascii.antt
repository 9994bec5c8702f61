-- ===== src/Json/Ascii.antt =====
-- The characters that `dumps` writes (src/python/robflex_api.py, json.dumps).
use pmu_roboflex.Prelude.{ℕ, suc, ◌≤◌, ◌<◌, [], ◌∷◌, ◌++◌, flat_map, Text, All, All-append, arith}
use pmu_roboflex.Prelude.Int.{ℤ, pos, negsuc}
use pmu_roboflex.Prelude.Decimal.{str_nat, str_int}
use pmu_roboflex.Prelude.Decimal.RoundTrip.{IsDigit, str_nat-All}
use pmu_roboflex.Json.{
  Value, str, num, Object, hex_digit, unicode_escape, high_half, low_half, escape_char, dumps_text,
  dumps_value, dumps_field, dumps_rest, dumps,
}

abbrev pub IsPrintable : ℕ → Type 0
IsPrintable c = (32 ≤ c) × (c ≤ 126)

hex_digit-IsPrintable : (d : ℕ) → d < 16 → IsPrintable (hex_digit d)
unfolding hex_digit
hex_digit-IsPrintable d h = ground arith

unicode_escape-IsPrintable : (n : ℕ) → All IsPrintable (unicode_escape n)
unfolding unicode_escape
unicode_escape-IsPrintable n = omega (arith, hex_digit-IsPrintable)

pair-IsPrintable : (h l : ℕ) → All IsPrintable (unicode_escape h ++ unicode_escape l)
pair-IsPrintable h l =
    All-append IsPrintable (unicode_escape h) (unicode_escape l) (unicode_escape-IsPrintable h)
      (unicode_escape-IsPrintable l)

escape_char-IsPrintable : (c : ℕ) → All IsPrintable (escape_char c)
unfolding escape_char
escape_char-IsPrintable c =
    ground (arith, unicode_escape-IsPrintable c, pair-IsPrintable (high_half c) (low_half c))

flat_map-IsPrintable : (s : Text) → All IsPrintable (flat_map escape_char s)
unfolding flat_map
flat_map-IsPrintable [] = tt
flat_map-IsPrintable (c ∷ s) =
    All-append IsPrintable (escape_char c) _ (escape_char-IsPrintable c) (flat_map-IsPrintable s)

dumps_text-IsPrintable : (s : Text) → All IsPrintable (dumps_text s)
unfolding dumps_text
dumps_text-IsPrintable s = (
  omega arith,
  All-append IsPrintable (flat_map escape_char s) _ (flat_map-IsPrintable s) (omega arith),
)

digits-IsPrintable : (t : Text) → All IsDigit t → All IsPrintable t
digits-IsPrintable [] h = tt
digits-IsPrintable (c ∷ t) (hc, ht) = (omega arith, digits-IsPrintable t ht)

str_int-IsPrintable : (i : ℤ) → All IsPrintable (str_int i)
unfolding str_int
str_int-IsPrintable (pos n) = digits-IsPrintable (str_nat n) (str_nat-All n)
str_int-IsPrintable (negsuc n) =
    (omega arith, digits-IsPrintable (str_nat (suc n)) (str_nat-All (suc n)))

dumps_value-IsPrintable : (v : Value) → All IsPrintable (dumps_value v)
unfolding dumps_value
dumps_value-IsPrintable (str s) = dumps_text-IsPrintable s
dumps_value-IsPrintable (num i) = str_int-IsPrintable i

dumps_field-IsPrintable : (f : Text × Value) → All IsPrintable (dumps_field f)
unfolding dumps_field
dumps_field-IsPrintable (key, value) =
    All-append IsPrintable (dumps_text key) _ (dumps_text-IsPrintable key)
      (omega arith, dumps_value-IsPrintable value)

dumps_rest-IsPrintable : (o : Object) → All IsPrintable (dumps_rest o)
unfolding dumps_rest
dumps_rest-IsPrintable [] = omega arith
dumps_rest-IsPrintable (f ∷ o) = (
  omega arith,
  All-append IsPrintable (dumps_field f) _ (dumps_field-IsPrintable f) (dumps_rest-IsPrintable o),
)

-- Every character that `dumps` writes is printable ASCII, whatever characters the object's texts
-- hold.
pub dumps-IsPrintable : (o : Object) → All IsPrintable (dumps o)
unfolding dumps
dumps-IsPrintable [] = omega arith
dumps-IsPrintable (f ∷ o) = (
  omega arith,
  All-append IsPrintable (dumps_field f) _ (dumps_field-IsPrintable f) (dumps_rest-IsPrintable o),
)
