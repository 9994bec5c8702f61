-- ===== src/Prelude/Words.antt =====
-- What the scripts use of `str`: white space, `split()`, `strip()`, `lower()`, `split(sep)`.
pub mod Laws
pub mod Fields
use Prim.Native.Nat.{ℕ, ◌+◌}
use mathlib.Core.Bool.{Bool, true, false, ◌&&◌, ◌||◌}
use mathlib.Core.List.{List, [], ◌∷◌, ◌++◌}
use mathlib.Core.Path.{◌≡◌, refl}
use pmu_roboflex.Prelude.Tests.{ltb, leb, ◌==◌, if◌then◌else◌}
use pmu_roboflex.Prelude.Texts.{Text, codes, starts_with}

-- `c.isspace()`, the characters at which `split()` and `strip()` cut.
unfoldable pub is_space : ℕ → Bool
is_space c =
    (leb 9 c && leb c 13)
    || (leb 28 c && leb c 32)
    || c == 0x85
    || c == 0xa0
    || c == 0x1680
    || (leb 0x2000 c && leb c 0x200a)
    || c == 0x2028
    || c == 0x2029
    || c == 0x202f
    || c == 0x205f
    || c == 0x3000

-- A word ends here, if one has begun.
unfoldable pub flush : Text → List Text → List Text
flush [] words = words
flush (c ∷ s) words = (c ∷ s) ∷ words

-- The words of `s` behind the part `word` of a word.
unfoldable pub split_from : Text → Text → List Text
unfolding flush
split_from word [] = flush word []
split_from word (c ∷ s) = elim (is_space c) [
  | true ↦ flush word (split_from [] s)
  | false ↦ split_from (word ++ c ∷ []) s
]

unfoldable pub split : Text → List Text
unfolding split_from
split s = split_from [] s

unfoldable pub lstrip : Text → Text
lstrip [] = []
lstrip (c ∷ s) = let rest = lstrip s in if is_space c then rest else c ∷ s

unfoldable pub keep_end : ℕ → Text → Text
keep_end c [] = if is_space c then [] else c ∷ []
keep_end c (d ∷ s) = c ∷ d ∷ s

unfoldable pub rstrip : Text → Text
unfolding keep_end
rstrip [] = []
rstrip (c ∷ s) = keep_end c (rstrip s)

unfoldable pub strip : Text → Text
unfolding lstrip rstrip
strip s = rstrip (lstrip s)

-- `lower()` on ASCII, on the Kelvin sign and on the dotted I, which are the only characters outside
-- ASCII whose lower case holds an ASCII letter. The others are left as they are: the scripts only
-- look for ASCII words in the result.
unfoldable pub lower_char : ℕ → Text
lower_char c =
    if leb b'A' c && leb c b'Z'
    then (c + 32) ∷ []
    else if c == 0x212a
    then b'k' ∷ []
    else if c == 0x130
    then b'i' ∷ 0x307 ∷ []
    else c ∷ []

unfoldable pub lower : Text → Text
unfolding lower_char
lower [] = []
lower (c ∷ s) = lower_char c ++ lower s

-- The parts of `s` between the occurrences of the character `sep`, behind the part `part`.
unfoldable pub cut_at : ℕ → Text → Text → List Text
cut_at sep part [] = part ∷ []
cut_at sep part (c ∷ s) = elim (c == sep) [
  | true ↦ part ∷ cut_at sep [] s
  | false ↦ cut_at sep (part ++ c ∷ []) s
]

-- `s.split(sep)` for a separator of one character.
unfoldable pub split_at : ℕ → Text → List Text
unfolding cut_at
split_at sep s = cut_at sep [] s

-- `" ".join(words)`.
unfoldable pub join_words : List Text → Text
join_words [] = []
join_words (w ∷ []) = w
join_words (w ∷ v ∷ ws) = w ++ b' ' ∷ join_words (v ∷ ws)

-- `p in s`.
unfoldable pub contains : Text → Text → Bool
contains p [] = starts_with p []
contains p (c ∷ s) = starts_with p (c ∷ s) || contains p s

-- `s.strip("[]")`: the brackets are taken off both ends.
unfoldable pub is_bracket : ℕ → Bool
is_bracket c = c == b'[' || c == b']'

unfoldable pub lstrip_brackets : Text → Text
unfolding is_bracket
lstrip_brackets [] = []
lstrip_brackets (c ∷ s) = let rest = lstrip_brackets s in if is_bracket c then rest else c ∷ s

unfoldable pub keep_bracket_end : ℕ → Text → Text
unfolding is_bracket
keep_bracket_end c [] = if is_bracket c then [] else c ∷ []
keep_bracket_end c (d ∷ s) = c ∷ d ∷ s

unfoldable pub rstrip_brackets : Text → Text
unfolding keep_bracket_end
rstrip_brackets [] = []
rstrip_brackets (c ∷ s) = keep_bracket_end c (rstrip_brackets s)

unfoldable pub strip_brackets : Text → Text
unfolding lstrip_brackets rstrip_brackets
strip_brackets s = rstrip_brackets (lstrip_brackets s)

split_test : split (codes "  apply x\t 3\n") ≡ codes "apply" ∷ codes "x" ∷ codes "3" ∷ []
unfolding split is_space
split_test = refl

strip_test : strip (codes " a b\n") ≡ codes "a b"
unfolding strip is_space
strip_test = refl

split_at_test : split_at b':' (codes "COMM:a:b") ≡ codes "COMM" ∷ codes "a" ∷ codes "b" ∷ []
unfolding split_at
split_at_test = refl

contains_test : contains (codes "tick") (lower (codes "a TICK")) ≡ true
unfolding contains lower
contains_test = refl
