-- ===== src/Trace/Parse/Fields.antt =====
-- The words and fields of a line of the log (benchmark/thread_switch_ebpf/plot_compare.py).
use pmu_roboflex.Prelude.{
  ℕ, true, ◌≡◌, refl, ap, ◌∙◌, some, List, [], ◌∷◌, ◌++◌, append-nil, append_assoc, Text, get_elem?,
  if◌then◌else◌, All, arith, ◌==◌, Lacks,
}
use pmu_roboflex.Prelude.Int.{pos}
use pmu_roboflex.Prelude.Decimal.{parse_int, str_nat, str_int}
use pmu_roboflex.Prelude.Decimal.RoundTrip.{parse_int-str_int, IsDigit, str_nat-All, str_nat-cons}
use pmu_roboflex.Prelude.Words.{
  is_space, strip, split, split_from, split_at, cut_at, contains, strip_brackets, lstrip_brackets,
  rstrip_brackets, keep_bracket_end, is_bracket, flush,
}
use pmu_roboflex.Prelude.Words.Laws.{
  IsSolid, split-strip, cut_at-append, split_from-cons, split_from_space,
}
use pmu_roboflex.Trace.Parse.{parse_rest, is_stamp, parse_parts, parse_stripped, parse_log_line}

pub parse_stripped_words : (t : Text) → parse_stripped t ≡ parse_parts (split t)
unfolding parse_stripped
parse_stripped_words [] = unfold parse_parts split flush in refl
parse_stripped_words (c ∷ s) = refl

-- A line is read by its words.
pub parse_log_line_words : (line : Text) → parse_log_line line ≡ parse_parts (split line)
parse_log_line_words line =
    unfold parse_log_line in parse_stripped_words (strip line) ∙ ap parse_parts (split-strip line)

-- A blank at the end adds no word.
pub split_from_end :
    (s word : Text) (c : ℕ) → is_space c ≡ true → split_from word (s ++ c ∷ []) ≡ split_from word s
split_from_end [] word c h = split_from_space c word [] h ∙ (unfold split_from flush in refl)
split_from_end (d ∷ s) word c h =
    split_from-cons d (s ++ c ∷ []) s (λ w. split_from_end s w c h) word

pub read_pos : (n : ℕ) → parse_int (str_nat n) ≡ some (pos n)
read_pos n = unfold str_int in parse_int-str_int (pos n)

pub lstrip_digits : (n : ℕ) (s : Text) → lstrip_brackets (b'[' ∷ str_nat n ++ s) ≡ str_nat n ++ s
lstrip_digits n s =
    let (d, rest, e, small) = str_nat-cons n in
    rw e (unfold lstrip_brackets is_bracket in ground arith)

pub keep_digit : (c : ℕ) (s : Text) → IsDigit c → keep_bracket_end c s ≡ c ∷ s
unfolding keep_bracket_end is_bracket
keep_digit c [] h = ground arith
keep_digit c (d ∷ s) h = refl

pub rstrip_more :
    (c : ℕ) (s : Text)
    → rstrip_brackets (s ++ b']' ∷ []) ≡ s
    → keep_bracket_end c s ≡ c ∷ s
    → rstrip_brackets (c ∷ s ++ b']' ∷ []) ≡ c ∷ s
unfolding rstrip_brackets
rstrip_more c s h k = rw h k

pub rstrip_digits : (s : Text) → All IsDigit s → rstrip_brackets (s ++ b']' ∷ []) ≡ s
rstrip_digits [] h = unfold rstrip_brackets keep_bracket_end is_bracket in refl
rstrip_digits (c ∷ s) (hc, hs) = rstrip_more c s (rstrip_digits s hs) (keep_digit c s hc)

abbrev pub stamp : ℕ → Text
stamp n = b'[' ∷ str_nat n ++ b']' ∷ []

-- The time of a line is read back.
pub stamp_read : (n : ℕ) → parse_int (strip_brackets (stamp n)) ≡ some (pos n)
stamp_read n =
    unfold strip_brackets in
    rw (lstrip_digits n (b']' ∷ []), rstrip_digits (str_nat n) (str_nat-All n)) (read_pos n)

pub contains_end : (s : Text) (c : ℕ) → contains (c ∷ []) (s ++ c ∷ []) ≡ true
unfolding contains
contains_end [] c = ground arith
contains_end (d ∷ s) c = ground (arith, contains_end s c)

pub stamp_is : (n : ℕ) → is_stamp (stamp n) ≡ true
stamp_is n = unfold contains in contains_end (b'[' ∷ str_nat n) b']'

-- A line that begins with a time goes on to its other words.
pub stamped :
    (n : ℕ) (name : Text) (rest : List Text)
    → parse_parts (stamp n ∷ name ∷ rest) ≡ parse_rest (pos n) name rest
unfolding parse_parts
stamped n name rest = rw (stamp_is n, stamp_read n)

pub digits-IsSolid : (t : Text) → All IsDigit t → All IsSolid t
unfolding is_space
digits-IsSolid [] h = tt
digits-IsSolid (c ∷ t) (hc, ht) = (ground arith, digits-IsSolid t ht)

-- The text in front of the first `sep`.
unfoldable pub before : ℕ → Text → Text
before sep [] = []
before sep (c ∷ s) = let rest = before sep s in if c == sep then [] else c ∷ rest

pub cut_at-first :
    (sep : ℕ) (part s : Text) → get_elem? (cut_at sep part s) 0 ≡ some (part ++ before sep s)
unfolding cut_at before
cut_at-first sep part [] = rw append-nil
cut_at-first sep part (c ∷ s) = ground (
  arith,
  cut_at-first sep (part ++ c ∷ []) s,
  append_assoc part (c ∷ []) (before sep s),
  append-nil part,
)

pub cut_at-sep : (sep : ℕ) (part s : Text) → cut_at sep part (sep ∷ s) ≡ part ∷ cut_at sep [] s
unfolding cut_at
cut_at-sep sep part s = ground arith

-- `t.split(sep)[1]`.
pub field_behind :
    (sep : ℕ) (p s : Text)
    → Lacks sep p
    → get_elem? (split_at sep (p ++ sep ∷ s)) 1 ≡ some (before sep s)
field_behind sep p s h =
    unfold split_at in
    rw (cut_at-append sep p [] (sep ∷ s) h, cut_at-sep sep p s) (cut_at-first sep [] s)

pub before-digits : (t : Text) → All IsDigit t → before b':' t ≡ t
unfolding before
before-digits [] h = refl
before-digits (c ∷ t) (hc, ht) = ground (arith, before-digits t ht)
