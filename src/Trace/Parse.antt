-- ===== src/Trace/Parse.antt =====
-- benchmark/thread_switch_ebpf/plot_compare.py, parse_log_line and load_logs.
pub mod Fields
pub mod Printed
pub mod Logs
pub mod LogFile
pub mod Plot
use pmu_roboflex.Prelude.{
  ℕ, Bool, true, false, ◌&&◌, ◌≡◌, refl, Option, none, some, ◌>>=◌, List, [], ◌∷◌, ◌++◌, Text,
  codes, text_beq, starts_with, get_elem?, if◌then◌else◌,
}
use pmu_roboflex.Prelude.Int.{ℤ, pos}
use pmu_roboflex.Prelude.Decimal.{parse_int}
use pmu_roboflex.Trace.Files.{readlines}
use pmu_roboflex.Prelude.Words.{strip, split, split_at, join_words, lower, contains, strip_brackets}

-- The tuple `(ts, tid, event, comm)`.
pub record Entry : Type 0 where
  pub ts : ℤ
  pub tid : ℤ
  pub event : Text
  pub comm : Text

-- A call that raises is `none`; `some none` is the value None.
abbrev pub Parsed : Type 0
Parsed = Option (Option Entry)

abbrev pub tick_at : ℤ → Entry
tick_at ts = record { ts = ts; tid = pos 0; event = codes "TICK"; comm = [] }

-- The words behind the first two of a line that is no external event.
unfoldable pub parse_switch : ℤ → List Text → Parsed
parse_switch ts (tid_word ∷ event_word ∷ comm_word ∷ _) = do
  tid_text ← get_elem? (split_at b':' tid_word) 1
  tid ← parse_int tid_text
  event ← get_elem? (split_at 39 event_word) 1
  comm ← get_elem? (split_at b':' comm_word) 1
  some (some (record { ts = ts; tid = tid; event = event; comm = comm }))
parse_switch ts _ = some none

-- The words behind the time.
unfoldable pub parse_rest : ℤ → Text → List Text → Parsed
parse_rest ts name rest =
    if text_beq name (codes "EXTERNAL_EVENT:")
    then (if contains (codes "tick") (lower (join_words rest))
        then some (some (tick_at ts))
        else some none)
    else parse_switch ts rest

abbrev pub is_stamp : Text → Bool
is_stamp word = starts_with (codes "[") word && contains (codes "]") word

unfoldable pub parse_parts : List Text → Parsed
parse_parts (stamp ∷ name ∷ rest) =
    if is_stamp stamp
    then (elim (parse_int (strip_brackets stamp)) [
      | none ↦ some none
      | some ts ↦ parse_rest ts name rest
    ])
    else some none
parse_parts _ = some none

-- `if not line: return None`.
unfoldable pub parse_stripped : Text → Parsed
parse_stripped [] = some none
parse_stripped (c ∷ s) = parse_parts (split (c ∷ s))

unfoldable pub parse_log_line : Text → Parsed
parse_log_line line = parse_stripped (strip line)

abbrev pub add_entry : Option Entry → List Entry → List Entry
add_entry none entries = entries
add_entry (some entry) entries = entries ++ entry ∷ []

-- The loop over the lines of the file.
unfoldable pub load_lines : List Text → List Entry → Option (List Entry)
load_lines [] raw_logs = some raw_logs
load_lines (line ∷ lines) raw_logs = do
  parsed ← parse_log_line line
  load_lines lines (add_entry parsed raw_logs)

-- The text of the file, as it is decoded.
unfoldable pub load_logs : Text → Option (List Entry)
unfolding readlines
load_logs text = load_lines (readlines text) []
