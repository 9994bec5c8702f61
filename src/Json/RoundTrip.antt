-- ===== src/Json/RoundTrip.antt =====
-- Objects: `dumps` against the reader (src/python/robflex_api.py, json.dumps). `Strings` has the texts.
mod Strings
pub use Strings.{IsScalar, read_text-dumps_text}
use pmu_roboflex.Prelude.{
  ℕ, zero, suc, ◌+◌, ◌≤◌, ◌<◌, ◌≡◌, refl, ap, subst, Bool, true, false, List, [], ◌∷◌, ◌++◌,
  append_assoc, append-nil, Option, none, some, Text, All, length, length-append, arith, ◌>>=◌, ltb,
  leb, ◌==◌,
}
use pmu_roboflex.Prelude.Int.{ℤ, pos, negsuc}
use pmu_roboflex.Prelude.Decimal.{str_nat, str_int}
use pmu_roboflex.Prelude.Decimal.RoundTrip.{IsDigit, str_nat-All, str_nat-cons, parse_int-str_int}
use pmu_roboflex.Json.{
  Value, str, num, Object, dumps_text, dumps_value, dumps_field, dumps_rest, dumps,
}
use pmu_roboflex.Json.Read.{
  is_number_char, span_number, read_number, read_value, expect, read_text, read_field, read_rest,
  read_fields, read_open, read,
}

-- The texts of an object hold no half of a surrogate pair.
abbrev pub IsScalarValue : Value → Type 0
IsScalarValue (str s) = All IsScalar s
IsScalarValue (num i) = Unit

abbrev pub IsScalarField : Text × Value → Type 0
IsScalarField (key, value) = All IsScalar key × IsScalarValue value

abbrev pub IsScalarObject : Object → Type 0
IsScalarObject = All IsScalarField

-- The texts that may follow a number.
abbrev Stops : Text → Type 0
Stops [] = ⊥
Stops (c ∷ s) = is_number_char c ≡ false

span_number-digits :
    (t out rest : Text)
    → All IsDigit t
    → Stops rest
    → span_number out (t ++ rest) ≡ (out ++ t, rest)
unfolding span_number
span_number-digits [] out [] _ stops = absurd stops
span_number-digits [] out (c ∷ s) _ stops = ground (arith, append-nil {0} out)
span_number-digits (d ∷ t) out rest (hd, ht) stops =
    ground (arith, span_number-digits t (out ++ d ∷ []) rest ht stops, append_assoc out (d ∷ []) t)

span_number-str_int :
    (i : ℤ) (rest : Text) → Stops rest → span_number [] (str_int i ++ rest) ≡ (str_int i, rest)
unfolding str_int
span_number-str_int (pos n) rest stops =
    span_number-digits (str_nat n) [] rest (str_nat-All n) stops
span_number-str_int (negsuc n) rest stops =
    unfold span_number in
    span_number-digits (str_nat (suc n)) (b'-' ∷ []) rest (str_nat-All (suc n)) stops

read_number-str_int :
    (i : ℤ) (rest : Text) → Stops rest → read_number (str_int i ++ rest) ≡ some (i, rest)
unfolding read_number
read_number-str_int i rest stops = rw (span_number-str_int i rest stops, parse_int-str_int i)

-- A number does not begin with a quote.
str_int-cons : (i : ℤ) → (c : ℕ) × (rest : Text) × (str_int i ≡ c ∷ rest) × ((c == b'"') ≡ false)
unfolding str_int
str_int-cons (pos n) = let (d, rest, e, small) = str_nat-cons n in (b'0' + d, rest, e, ground arith)
str_int-cons (negsuc n) = (b'-', str_nat (suc n), refl, refl)

read_value-num :
    (i : ℤ) (rest : Text) → Stops rest → read_value (str_int i ++ rest) ≡ some (num i, rest)
unfolding read_value
read_value-num i rest stops =
    let (c, t, e, unquoted) = str_int-cons i in
    let read : read_number (c ∷ (t ++ rest)) ≡ some (i, rest) =
      subst (λ u. read_number (u ++ rest) ≡ some (i, rest)) e (read_number-str_int i rest stops) in
    rw (e, unquoted, read)

read_value-str :
    (s rest : Text) → All IsScalar s → read_value (dumps_text s ++ rest) ≡ some (str s, rest)
unfolding read_value dumps_text
read_value-str s rest h = rw (read_text-dumps_text s rest h)

read_value-dumps_value :
    (v : Value) (rest : Text)
    → IsScalarValue v
    → Stops rest
    → read_value (dumps_value v ++ rest) ≡ some (v, rest)
unfolding dumps_value
read_value-dumps_value (str s) rest h _ = read_value-str s rest h
read_value-dumps_value (num i) rest _ stops = read_value-num i rest stops

read_field-dumps_field :
    (f : Text × Value) (rest : Text)
    → IsScalarField f
    → Stops rest
    → read_field (dumps_field f ++ rest) ≡ some (f, rest)
unfolding read_field dumps_field expect
read_field-dumps_field (key, value) rest (hk, hv) stops =
    rw (append_assoc, read_text-dumps_text key _ hk, read_value-dumps_value value rest hv stops)

dumps_rest-Stops : (o : Object) → Stops (dumps_rest o)
unfolding dumps_rest is_number_char
dumps_rest-Stops [] = refl
dumps_rest-Stops (f ∷ o) = refl

read_rest-dumps_rest :
    (o : Object) (fuel : ℕ)
    → length o < fuel
    → IsScalarObject o
    → read_rest fuel (dumps_rest o) ≡ some o
unfolding read_rest dumps_rest
read_rest-dumps_rest o zero h _ = absurd (omega arith)
read_rest-dumps_rest [] (suc fuel) h _ = refl
read_rest-dumps_rest (f ∷ o) (suc fuel) h (hf, ho) = rw (
  read_field-dumps_field f (dumps_rest o) hf (dumps_rest-Stops o),
  read_rest-dumps_rest o fuel (omega arith) ho,
)

length-dumps_rest : (o : Object) → length o < length (dumps_rest o)
unfolding dumps_rest
length-dumps_rest [] = omega arith
length-dumps_rest (f ∷ o) =
    omega (arith, length-append (dumps_field f) (dumps_rest o), length-dumps_rest o)

read_fields-dumps :
    (f : Text × Value) (o : Object)
    → IsScalarObject (f ∷ o)
    → read_fields (dumps_field f ++ dumps_rest o) ≡ some (f ∷ o)
unfolding read_fields
read_fields-dumps f o (hf, ho) = rw (
  read_field-dumps_field f (dumps_rest o) hf (dumps_rest-Stops o),
  read_rest-dumps_rest o (length (dumps_rest o)) (length-dumps_rest o) ho,
)

read_brace : (t : Text) → read (b'{' ∷ b'"' ∷ t) ≡ read_fields (b'"' ∷ t)
unfolding read
read_brace t = refl

-- What `dumps` writes of an object whose texts hold no surrogate is read back as that object: no
-- key and no value, whatever quotes, backslashes, braces or control characters it holds, changes how
-- the rest is read.
pub read-dumps : (o : Object) → IsScalarObject o → read (dumps o) ≡ some o
unfolding dumps
read-dumps [] h = unfold read in refl
read-dumps (f ∷ o) h = rw read_brace (read_fields-dumps f o h)
