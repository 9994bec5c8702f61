-- ===== src/Json.antt =====
-- What src/python/robflex_api.py uses of `json.dumps`: objects whose values are texts and integers,
-- written with the separators `,` and `:` and with every character outside ASCII escaped. `Read` is a
-- reader of the same grammar, written from RFC 8259, against which the writer is proved.
pub mod Ascii
pub mod Read
pub mod RoundTrip
use pmu_roboflex.Prelude.{
  ℕ, ◌+◌, ◌-◌, ◌/◌, ◌%◌, ◌≡◌, refl, ◌&&◌, List, [], ◌∷◌, ◌++◌, flat_map, Text, codes, ltb, leb,
  ◌==◌, if◌then◌else◌,
}
use pmu_roboflex.Prelude.Int.{ℤ, pos}
use pmu_roboflex.Prelude.Decimal.{str_int}

pub data Value : Type 0 where
  str : Text → Value
  num : ℤ → Value

-- A dict, in the order of its keys.
abbrev pub Object : Type 0
Object = List (Text × Value)

-- `{0:04x}`: one lower-case hexadecimal digit, and four.
unfoldable pub hex_digit : ℕ → ℕ
hex_digit d = if ltb d 10 then b'0' + d else 87 + d

unfoldable pub unicode_escape : ℕ → Text
unicode_escape n =
    b'\\'
    ∷ b'u'
    ∷ hex_digit (n / 4096 % 16)
    ∷ hex_digit (n / 256 % 16)
    ∷ hex_digit (n / 16 % 16)
    ∷ hex_digit (n % 16)
    ∷ []

-- A character above U+FFFF is a surrogate pair.
unfoldable pub high_half : ℕ → ℕ
high_half c = 0xd800 + (c - 0x10000) / 1024 % 1024

unfoldable pub low_half : ℕ → ℕ
low_half c = 0xdc00 + (c - 0x10000) % 1024

unfoldable pub escape_char : ℕ → Text
escape_char c =
    if c == b'"'
    then b'\\' ∷ b'"' ∷ []
    else if c == b'\\'
    then b'\\' ∷ b'\\' ∷ []
    else if leb 32 c && leb c 126
    then c ∷ []
    else if c == 10
    then b'\\' ∷ b'n' ∷ []
    else if c == 13
    then b'\\' ∷ b'r' ∷ []
    else if c == 9
    then b'\\' ∷ b't' ∷ []
    else if c == 12
    then b'\\' ∷ b'f' ∷ []
    else if c == 8
    then b'\\' ∷ b'b' ∷ []
    else if ltb c 0x10000
    then unicode_escape c
    else unicode_escape (high_half c) ++ unicode_escape (low_half c)

unfoldable pub dumps_text : Text → Text
unfolding escape_char unicode_escape hex_digit high_half low_half flat_map
dumps_text s = b'"' ∷ (flat_map escape_char s ++ b'"' ∷ [])

unfoldable pub dumps_value : Value → Text
unfolding dumps_text str_int
dumps_value (str s) = dumps_text s
dumps_value (num i) = str_int i

unfoldable pub dumps_field : Text × Value → Text
unfolding dumps_text dumps_value
dumps_field (key, value) = dumps_text key ++ b':' ∷ dumps_value value

-- The fields behind the first one, each behind a comma, and the closing brace.
unfoldable pub dumps_rest : Object → Text
unfolding dumps_field
dumps_rest [] = b'}' ∷ []
dumps_rest (field ∷ fields) = b',' ∷ (dumps_field field ++ dumps_rest fields)

unfoldable pub dumps : Object → Text
unfolding dumps_field dumps_rest
dumps [] = b'{' ∷ b'}' ∷ []
dumps (field ∷ fields) = b'{' ∷ (dumps_field field ++ dumps_rest fields)

dumps_test :
    dumps ((codes "a", str (codes "x\"\n")) ∷ (codes "b", num (pos 7)) ∷ [])
    ≡ codes "{\"a\":\"x\\\"\\n\",\"b\":7}"
unfolding dumps
dumps_test = refl

dumps_text_test : dumps_text (0xe9 ∷ 0x1f600 ∷ []) ≡ codes "\"\\u00e9\\ud83d\\ude00\""
unfolding dumps_text
dumps_text_test = refl
