-- ===== src/Trace/Parse/Plot.antt =====
-- benchmark/thread_switch_ebpf/plot.py, parse_log_line and the lines that the script reads: the older
-- reader, which raises on a line with no time.
use pmu_roboflex.Prelude.{
  ℕ, zero, suc, Bool-cases, Option-cases, inl, inr, ◌⊎◌, ◌≡◌, refl, Option, none, some, ◌>>=◌, List,
  [], ◌∷◌, Text,
}
use pmu_roboflex.Prelude.Decimal.{parse_int}
use pmu_roboflex.Prelude.Words.{strip, split, strip_brackets}
use pmu_roboflex.Trace.Files.{readlines}
use pmu_roboflex.Trace.Parse
use pmu_roboflex.Trace.Parse.{Parsed, Entry, parse_rest, is_stamp}

unfoldable pub parse_parts : List Text → Parsed
parse_parts (stamp ∷ name ∷ rest) = do
  ts ← parse_int (strip_brackets stamp)
  parse_rest ts name rest
parse_parts _ = some none

-- `if not line: return None`.
unfoldable pub parse_stripped : Text → Parsed
parse_stripped [] = some none
parse_stripped (c ∷ s) = parse_parts (split (c ∷ s))

unfoldable pub parse_log_line : Text → Parsed
parse_log_line line = parse_stripped (strip line)

parse_parts_refine :
    (words : List Text)
    → (Parse.parse_parts words ≡ some none) ⊎ (parse_parts words ≡ Parse.parse_parts words)
unfolding parse_parts Parse.parse_parts
parse_parts_refine [] = inl refl
parse_parts_refine (stamp ∷ []) = inl refl
parse_parts_refine (stamp ∷ name ∷ rest) = elim (Bool-cases (is_stamp stamp)) [
  | inr plain ↦ inl (rw plain)
  | inl stamped ↦ elim (Option-cases (parse_int (strip_brackets stamp))) [
    | inl bad ↦ inl (rw (stamped, bad))
    | inr (ts, good) ↦ inr (rw (stamped, good))
  ]
]

parse_stripped_refine :
    (t : Text) → (Parse.parse_stripped t ≡ some none) ⊎ (parse_stripped t ≡ Parse.parse_stripped t)
unfolding parse_stripped Parse.parse_stripped
parse_stripped_refine [] = inl refl
parse_stripped_refine (c ∷ s) = parse_parts_refine (split (c ∷ s))

-- The two readers differ only on lines that the newer one passes over: on every other line they give
-- the same entry, and raise on the same ones.
pub parse_log_line_refine :
    (line : Text)
    → (Parse.parse_log_line line ≡ some none) ⊎ (parse_log_line line ≡ Parse.parse_log_line line)
unfolding parse_log_line Parse.parse_log_line
parse_log_line_refine line = parse_stripped_refine (strip line)

-- `readlines()[10:32]`.
unfoldable pub slice : {A : Type 0} → ℕ → ℕ → List A → List A
slice zero zero xs = []
slice zero (suc n) [] = []
slice zero (suc n) (x ∷ xs) = x ∷ slice zero n xs
slice (suc k) n [] = []
slice (suc k) n (_ ∷ xs) = slice k n xs

abbrev keep : List (Option Entry) → List Entry
keep [] = []
keep (none ∷ parsed) = keep parsed
keep (some entry ∷ parsed) = entry ∷ keep parsed

unfoldable pub parse_all : List Text → Option (List (Option Entry))
parse_all [] = some []
parse_all (line ∷ lines) = do
  parsed ← parse_log_line line
  rest ← parse_all lines
  some (parsed ∷ rest)

-- The entries that the script draws: those of the lines 11 to 32.
unfoldable pub raw_logs : Text → Option (List Entry)
unfolding readlines
raw_logs text = do parsed ← parse_all (slice 10 22 (readlines text)); some (keep parsed)
