-- ===== src/Json/RoundTrip/Strings.antt =====
-- Quoted texts: `dumps_text` against the reader (src/python/robflex_api.py, json.dumps).
use pmu_roboflex.Prelude.{
  ℕ, zero, suc, ◌+◌, ◌*◌, ◌/◌, ◌%◌, ◌≤◌, ◌<◌, ◌≡◌, refl, ◌⊎◌, [], ◌∷◌, ◌++◌, append_assoc,
  append-nil, flat_map, some, Text, All, arith, Bool-cases, inl, inr, ap, ltb, if◌then◌else◌,
}
use pmu_roboflex.Json.{hex_digit, unicode_escape, high_half, low_half, escape_char, dumps_text}
use pmu_roboflex.Json.Read.{plain, hex, hex_value, move, units, put_unit, join_pairs, read_text}

-- A code point that is no half of a surrogate pair.
abbrev pub IsScalar : ℕ → Type 0
IsScalar c = (c < 0xd800) ⊎ ((0xe000 ≤ c) × (c < 0x110000))

hex_value-hex_digit : (d : ℕ) → d < 16 → hex_value (hex_digit d) ≡ some d
unfolding hex_value hex_digit
hex_value-hex_digit d h = ground arith

-- The UTF-16 units of a character.
utf16 : ℕ → Text
utf16 c = if ltb c 0x10000 then c ∷ [] else high_half c ∷ low_half c ∷ []

units_digit :
    (d k v : ℕ) (rest out : Text)
    → d < 16
    → units (hex_digit d ∷ rest) (hex (suc k) v) out ≡ units rest (hex k (v * 16 + d)) out
unfolding units move
units_digit d k v rest out h = ground (arith, hex_value-hex_digit d)

units_last_digit :
    (d v : ℕ) (rest out : Text)
    → d < 16
    → units (hex_digit d ∷ rest) (hex zero v) out ≡ units rest plain (out ++ (v * 16 + d) ∷ [])
unfolding units move
units_last_digit d v rest out h = ground (arith, hex_value-hex_digit d)

units_open : (rest out : Text) → units (b'\\' ∷ b'u' ∷ rest) plain out ≡ units rest (hex 3 0) out
unfolding units move
units_open rest out = refl

units-unicode_escape :
    (n : ℕ) (rest out : Text)
    → n < 0x10000
    → units (unicode_escape n ++ rest) plain out ≡ units rest plain (out ++ n ∷ [])
unfolding unicode_escape
units-unicode_escape n rest out h =
    rw
      (
        units_open,
        units_digit (n / 4096 % 16) 2 0 _ out (omega arith),
        units_digit (n / 256 % 16) 1 _ _ out (omega arith),
        units_digit (n / 16 % 16) 0 _ _ out (omega arith),
        units_last_digit (n % 16) _ _ out (omega arith),
      )
      (ap (λ m. units rest plain (out ++ m ∷ [])) (omega arith))

high_half-lt : (c : ℕ) → high_half c < 0x10000
unfolding high_half
high_half-lt c = omega arith

low_half-lt : (c : ℕ) → low_half c < 0x10000
unfolding low_half
low_half-lt c = omega arith

units_pair :
    (c : ℕ) (rest out : Text)
    → units ((unicode_escape (high_half c) ++ unicode_escape (low_half c)) ++ rest) plain out
      ≡ units rest plain (out ++ high_half c ∷ low_half c ∷ [])
units_pair c rest out = rw (
  append_assoc,
  units-unicode_escape (high_half c) _ out (high_half-lt c),
  units-unicode_escape (low_half c) _ _ (low_half-lt c),
  append_assoc,
)

-- One character, whatever follows.
units-escape_char :
    (c : ℕ) (rest out : Text)
    → c < 0x110000
    → units (escape_char c ++ rest) plain out ≡ units rest plain (out ++ utf16 c)
unfolding escape_char utf16 units move
units-escape_char c rest out h =
    ground (arith, units-unicode_escape c rest out, units_pair c rest out)

units-flat_map :
    (s rest out : Text)
    → All IsScalar s
    → units (flat_map escape_char s ++ b'"' ∷ rest) plain out ≡ some (out ++ flat_map utf16 s, rest)
unfolding flat_map
units-flat_map [] rest out h = unfold units move in rw append-nil
units-flat_map (c ∷ s) rest out (hc, hs) = rw (
  append_assoc,
  units-escape_char c _ out (omega arith),
  units-flat_map s rest _ hs,
  append_assoc,
)

put_unit_scalar : (c : ℕ) (s : Text) → IsScalar c → c < 0x10000 → put_unit c s ≡ c ∷ s
unfolding put_unit
put_unit_scalar c [] h k = refl
put_unit_scalar c (d ∷ s) h k = ground arith

put_unit_pair :
    (c : ℕ) (s : Text)
    → 0x10000 ≤ c
    → c < 0x110000
    → put_unit (high_half c) (put_unit (low_half c) s) ≡ c ∷ s
unfolding put_unit high_half low_half
put_unit_pair c [] h k = ground arith
put_unit_pair c (d ∷ s) h k = ground arith

join_pairs-utf16 : (c : ℕ) (s : Text) → IsScalar c → join_pairs (utf16 c ++ s) ≡ c ∷ join_pairs s
unfolding utf16
join_pairs-utf16 c s h = elim (Bool-cases (ltb c 0x10000)) [
  | inl small ↦ rw small (unfold join_pairs in put_unit_scalar c (join_pairs s) h (ground arith))
  | inr large ↦
      rw large (unfold join_pairs in put_unit_pair c (join_pairs s) (ground arith) (omega arith))
]

join_pairs-flat_map : (s : Text) → All IsScalar s → join_pairs (flat_map utf16 s) ≡ s
unfolding flat_map
join_pairs-flat_map [] h = unfold join_pairs in refl
join_pairs-flat_map (c ∷ s) (hc, hs) =
    rw (join_pairs-utf16 c _ hc) (ap (λ t. c ∷ t) (join_pairs-flat_map s hs))

pub read_text-dumps_text :
    (s rest : Text) → All IsScalar s → read_text (dumps_text s ++ rest) ≡ some (s, rest)
unfolding read_text dumps_text
read_text-dumps_text s rest h =
    rw (append_assoc, units-flat_map s rest [] h, join_pairs-flat_map s h)
