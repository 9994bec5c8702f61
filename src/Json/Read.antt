-- ===== src/Json/Read.antt =====
-- A reader of JSON objects whose values are texts and integers (RFC 8259, with no white space between
-- the tokens). A text is first read into UTF-16 units, and then its surrogate pairs are joined.
use pmu_roboflex.Prelude.{
  ℕ, zero, suc, ◌+◌, ◌-◌, ◌*◌, Bool, true, false, ◌&&◌, ◌||◌, Option, none, some, [], ◌∷◌, ◌++◌,
  Text, ltb, leb, ◌==◌, if◌then◌else◌, ◌>>=◌, length, ◌≡◌, refl, codes,
}
use pmu_roboflex.Prelude.Int.{ℤ, negsuc}
use pmu_roboflex.Prelude.Decimal.{parse_int}
use pmu_roboflex.Json.{Value, str, num, Object}

-- Where the reader stands inside a text; `hex k v` waits for `suc k` more digits.
pub data Mode : Type 0 where
  plain escaped : Mode
  hex : ℕ → ℕ → Mode

pub data Move : Type 0 where
  go : Mode → Text → Move
  done refuse : Move

unfoldable pub hex_value : ℕ → Option ℕ
hex_value c =
    if leb b'0' c && leb c b'9'
    then some (c - b'0')
    else if leb b'a' c && leb c b'f'
    then some (c - 87)
    else if leb b'A' c && leb c b'F'
    then some (c - 55)
    else none

unfoldable pub unescape : ℕ → Option ℕ
unescape c =
    if c == b'"' || c == b'\\' || c == b'/'
    then some c
    else if c == b'n'
    then some 10
    else if c == b'r'
    then some 13
    else if c == b't'
    then some 9
    else if c == b'f'
    then some 12
    else if c == b'b'
    then some 8
    else none

unfoldable pub move : ℕ → Mode → Text → Move
unfolding hex_value unescape
move c plain out =
    if c == b'"'
    then done
    else if c == b'\\'
    then go escaped out
    else if ltb c 32
    then refuse
    else go plain (out ++ c ∷ [])
move c escaped out =
    if c == b'u'
    then go (hex 3 0) out
    else elim (unescape c) [ some d ↦ go plain (out ++ d ∷ []) | none ↦ refuse ]
move c (hex zero v) out = elim (hex_value c) [
  | some d ↦ go plain (out ++ (v * 16 + d) ∷ [])
  | none ↦ refuse
]
move c (hex (suc k) v) out = elim (hex_value c) [
  | some d ↦ go (hex k (v * 16 + d)) out
  | none ↦ refuse
]

-- The units of a text, from behind its opening quote, and what follows the closing one.
unfoldable pub units : Text → Mode → Text → Option (Text × Text)
unfolding move
units [] mode out = none
units (c ∷ s) mode out = elim (move c mode out) [
  | go mode' out' ↦ units s mode' out'
  | done ↦ some (out, s)
  | refuse ↦ none
]

is_high : ℕ → Bool
is_high c = leb 0xd800 c && ltb c 0xdc00

is_low : ℕ → Bool
is_low c = leb 0xdc00 c && ltb c 0xe000

unfoldable pub put_unit : ℕ → Text → Text
unfolding is_high is_low
put_unit h [] = h ∷ []
put_unit h (l ∷ s) =
    if is_high h && is_low l then (0x10000 + (h - 0xd800) * 1024 + (l - 0xdc00)) ∷ s else h ∷ l ∷ s

-- A high half before a low one is one character.
unfoldable pub join_pairs : Text → Text
unfolding put_unit
join_pairs [] = []
join_pairs (h ∷ s) = put_unit h (join_pairs s)

unfoldable pub read_text : Text → Option (Text × Text)
unfolding units join_pairs
read_text [] = none
read_text (c ∷ s) =
    if c == b'"' then (do (us, rest) ← units s plain []; some (join_pairs us, rest)) else none

-- The characters of a number, and the rest.
unfoldable pub is_number_char : ℕ → Bool
is_number_char c = c == b'-' || (leb b'0' c && leb c b'9')

unfoldable pub span_number : Text → Text → Text × Text
unfolding is_number_char
span_number out [] = (out, [])
span_number out (c ∷ s) = elim (is_number_char c) [
  | true ↦ span_number (out ++ c ∷ []) s
  | false ↦ (out, c ∷ s)
]

unfoldable pub read_number : Text → Option (ℤ × Text)
unfolding span_number parse_int
read_number s = let (t, rest) = span_number [] s in do i ← parse_int t; some (i, rest)

unfoldable pub read_value : Text → Option (Value × Text)
unfolding read_text read_number
read_value [] = none
read_value (c ∷ s) =
    if c == b'"'
    then (do (t, rest) ← read_text (c ∷ s); some (str t, rest))
    else (do (i, rest) ← read_number (c ∷ s); some (num i, rest))

unfoldable pub expect : ℕ → Text → Option Text
expect c [] = none
expect c (d ∷ s) = if d == c then some s else none

unfoldable pub read_field : Text → Option ((Text × Value) × Text)
unfolding read_text expect read_value
read_field s = do
  (key, s₁) ← read_text s
  s₂ ← expect b':' s₁
  (value, s₃) ← read_value s₂
  some ((key, value), s₃)

-- The fields behind the first one and the closing brace, which ends the text. Each field takes
-- fuel, and a text has fewer fields than characters.
unfoldable pub read_rest : ℕ → Text → Option Object
unfolding read_field
read_rest fuel [] = none
read_rest zero (c ∷ s) = none
read_rest (suc fuel) (c ∷ s) =
    if c == b'}'
    then elim s [ [] ↦ some [] | x ∷ xs ↦ none ]
    else if c == b','
    then (do (field, t) ← read_field s; fields ← read_rest fuel t; some (field ∷ fields))
    else none

unfoldable pub read_fields : Text → Option Object
unfolding read_field read_rest
read_fields s = do (field, t) ← read_field s; fields ← read_rest (length t) t; some (field ∷ fields)

unfoldable pub read_open : Text → Option Object
unfolding read_fields
read_open [] = none
read_open (c ∷ s) =
    if c == b'}' then elim s [ [] ↦ some [] | x ∷ xs ↦ none ] else read_fields (c ∷ s)

unfoldable pub read : Text → Option Object
unfolding read_open expect
read s = do t ← expect b'{' s; read_open t

read_test :
    read (codes "{\"a\":\"x\\u00e9\\n\",\"b\":-7}")
    ≡ some ((codes "a", str (codes "x" ++ 0xe9 ∷ 10 ∷ [])) ∷ (codes "b", num (negsuc 6)) ∷ [])
unfolding read
read_test = refl
