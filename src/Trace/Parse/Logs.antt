-- ===== src/Trace/Parse/Logs.antt =====
-- The other lines of monitor_task.py, against parse_log_line of plot_compare.py (both in
-- benchmark/thread_switch_ebpf).
use pmu_roboflex.Prelude.{
  ℕ, ◌==◌, false, Bool-cases, inl, inr, ◌≡◌, refl, ap, ◌∙◌, Option, none, some, List, [], ◌∷◌, ◌++◌,
  append_assoc, Text, codes, if◌then◌else◌, All, arith,
}
use pmu_roboflex.Prelude.Int.{pos}
use pmu_roboflex.Prelude.Decimal.{str_nat}
use pmu_roboflex.Prelude.Words.{is_space, strip, split, join_words, lower, contains}
use pmu_roboflex.Prelude.Words.Laws.{IsSolid, IsWord, split-strip, split_from-word}
use pmu_roboflex.Trace.Files.{IsPlain}
use pmu_roboflex.Trace.Monitor.{Event, print_event, print_external}
use pmu_roboflex.Trace.Parse.{Entry, tick_at, parse_rest, parse_parts, parse_log_line, add_entry}
use pmu_roboflex.Trace.Parse.Fields.{parse_log_line_words, split_from_end, stamp, stamped}
use pmu_roboflex.Trace.Parse.Printed.{entry_of, parse_log_line-print_event, prefixed, stamp-IsWord}

-- The message is read as a tick if its words hold one.
abbrev pub entry_of_message : ℕ → Text → Option Entry
entry_of_message ts message =
    if contains (codes "tick") (lower (join_words (split message)))
    then some (tick_at (pos ts))
    else none

split-stamp : (ts : ℕ) (s : Text) → split (stamp ts ++ b' ' ∷ s) ≡ stamp ts ∷ split s
unfolding split
split-stamp ts s = split_from-word (stamp ts) s b' ' (stamp-IsWord ts) (unfold is_space in refl)

split-name :
    (s : Text) → split (codes "EXTERNAL_EVENT:" ++ b' ' ∷ s) ≡ codes "EXTERNAL_EVENT:" ∷ split s
unfolding split
split-name s =
    split_from-word (codes "EXTERNAL_EVENT:") s b' '
      (unfold is_space in prefixed b'E' (codes "XTERNAL_EVENT:") [] (ground arith) tt)
      (unfold is_space in refl)

split-message : (s : Text) → split (strip s ++ b'\n' ∷ []) ≡ split s
split-message s =
    let ends : split (strip s ++ b'\n' ∷ []) ≡ split (strip s) =
      unfold split in split_from_end (strip s) [] b'\n' (unfold is_space in refl) in
    ends ∙ split-strip s

pub print_external-parts :
    (ts : ℕ) (message : Text)
    → print_external ts message
      ≡ stamp ts ++ b' ' ∷ (codes "EXTERNAL_EVENT:" ++ b' ' ∷ (strip message ++ b'\n' ∷ []))
unfolding print_external
print_external-parts ts message = simp append_assoc

split-external :
    (ts : ℕ) (message : Text)
    → split (print_external ts message) ≡ stamp ts ∷ codes "EXTERNAL_EVENT:" ∷ split message
split-external ts message = rw (print_external-parts, split-stamp, split-name, split-message)

message_read :
    (ts : ℕ) (message : Text)
    → parse_rest (pos ts) (codes "EXTERNAL_EVENT:") (split message)
      ≡ some (entry_of_message ts message)
unfolding parse_rest
message_read ts message =
    elim (Bool-cases (contains (codes "tick") (lower (join_words (split message))))) [
      | inl tick ↦ rw tick
      | inr other ↦ rw other
    ]

-- The line of a message is read as a tick with its time if a word of the message holds one, and else
-- passed over, whatever the message is.
pub parse_log_line-print_external :
    (ts : ℕ) (message : Text)
    → parse_log_line (print_external ts message) ≡ some (entry_of_message ts message)
parse_log_line-print_external ts message =
    parse_log_line_words (print_external ts message)
    ∙ ap parse_parts (split-external ts message)
    ∙ stamped ts _ _
    ∙ message_read ts message

-- `print(f"Started {task['name']} with PID: {p.pid}")`.
unfoldable pub print_started : Text → ℕ → Text
print_started name pid =
    codes "Started " ++ name ++ codes " with PID: " ++ str_nat pid ++ codes "\n"

-- `print(f"Monitoring for {config['duration']} seconds...")`, with the printed duration.
unfoldable pub print_monitoring : Text → Text
print_monitoring duration = codes "Monitoring for " ++ duration ++ codes " seconds...\n"

abbrev pub print_stopping : Text
print_stopping = codes "Stopping processes...\n"

split-word : (w s : Text) → IsWord w → split (w ++ b' ' ∷ s) ≡ w ∷ split s
unfolding split
split-word w s h = split_from-word w s b' ' h (unfold is_space in refl)

unstamped :
    (c : ℕ) (w : Text) (words : List Text)
    → (b'[' == c) ≡ false
    → parse_parts ((c ∷ w) ∷ words) ≡ some none
unfolding parse_parts
unstamped c w [] h = refl
unstamped c w (v ∷ words) h = ground arith

-- A line whose first word begins with no bracket is passed over.
passed_over :
    (c : ℕ) (w s : Text)
    → IsWord (c ∷ w)
    → (b'[' == c) ≡ false
    → parse_log_line ((c ∷ w) ++ b' ' ∷ s) ≡ some none
passed_over c w s word plain =
    parse_log_line_words ((c ∷ w) ++ b' ' ∷ s)
    ∙ ap parse_parts (split-word (c ∷ w) s word)
    ∙ unstamped c w (split s) plain

-- A print of the monitor.
pub data Output : Type 0 where
  started : Text → ℕ → Output
  monitoring : Text → Output
  switched : Event → Output
  external : ℕ → Text → Output
  stopping : Output

abbrev pub print : Output → Text
print (started name pid) = print_started name pid
print (monitoring duration) = print_monitoring duration
print (switched event) = print_event event
print (external ts message) = print_external ts message
print stopping = print_stopping

abbrev pub entry_of_output : Output → Option Entry
entry_of_output (switched event) = some (entry_of event)
entry_of_output (external ts message) = entry_of_message ts message
entry_of_output _ = none

-- The text of the log.
abbrev pub log_of : List Output → Text
log_of [] = []
log_of (o ∷ os) = print o ++ log_of os

abbrev pub entries : List Output → List Entry → List Entry
entries [] done = done
entries (o ∷ os) done = entries os (add_entry (entry_of_output o) done)

-- What is printed has no end of a line inside, and the name of a thread no white space.
abbrev pub IsPrintedLine : Output → Type 0
IsPrintedLine (started name pid) = All IsPlain name
IsPrintedLine (monitoring duration) = All IsPlain duration
IsPrintedLine (switched event) = All IsSolid event.comm
IsPrintedLine (external ts message) = All IsPlain (strip message)
IsPrintedLine stopping = Unit

pub parse_log_line-print :
    (o : Output) → IsPrintedLine o → parse_log_line (print o) ≡ some (entry_of_output o)
parse_log_line-print (started name pid) h =
    unfold print_started in
    passed_over b'S' (codes "tarted") _
      (unfold is_space in prefixed b'S' (codes "tarted") [] (ground arith) tt) refl
parse_log_line-print (monitoring duration) h =
    unfold print_monitoring in
    passed_over b'M' (codes "onitoring") _
      (unfold is_space in prefixed b'M' (codes "onitoring") [] (ground arith) tt) refl
parse_log_line-print (switched event) h = parse_log_line-print_event event h
parse_log_line-print (external ts message) h = parse_log_line-print_external ts message
parse_log_line-print stopping h =
    passed_over b'S' (codes "topping") (codes "processes...\n")
      (unfold is_space in prefixed b'S' (codes "topping") [] (ground arith) tt) refl
