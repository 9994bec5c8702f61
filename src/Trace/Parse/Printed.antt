-- ===== src/Trace/Parse/Printed.antt =====
-- The lines that monitor_task.py prints for its events, against parse_log_line of plot_compare.py (both in
-- benchmark/thread_switch_ebpf).
use pmu_roboflex.Prelude.{
  ℕ, ◌≡◌, refl, ap, ◌∙◌, some, List, [], ◌∷◌, ◌++◌, append_assoc, Text, codes, get_elem?, All,
  All-append, arith,
}
use pmu_roboflex.Prelude.Int.{ℤ, pos}
use pmu_roboflex.Prelude.Decimal.{str_nat}
use pmu_roboflex.Prelude.Decimal.RoundTrip.{str_nat-All}
use pmu_roboflex.Prelude.Words.{is_space, split, split_at, join_words}
use pmu_roboflex.Prelude.Words.Laws.{IsSolid, IsWord, split-join_words}
use pmu_roboflex.Trace.Monitor.{Event, Kind, start, stop, kind_name, print_event}
use pmu_roboflex.Trace.Parse.{Entry, parse_switch, parse_rest, parse_parts, parse_log_line}
use pmu_roboflex.Trace.Parse.Fields.{
  parse_log_line_words, split_from_end, read_pos, stamp, stamped, digits-IsSolid, before,
  field_behind, before-digits,
}

-- The entry that the line of an event gives.
abbrev pub entry_of : Event → Entry
entry_of event = record {
  ts = pos event.ts;
  tid = pos event.tid;
  event = kind_name event.kind;
  comm = before b':' event.comm;
}

-- The words of the line of an event behind the time and the process.
abbrev pub tid_word : ℕ → Text
tid_word n = codes "TID" ++ b':' ∷ str_nat n

abbrev pub event_word : Kind → Text
event_word kind = codes "EVENT:b'" ++ kind_name kind ++ codes "'"

abbrev pub comm_word : Text → Text
comm_word comm = codes "COMM" ++ b':' ∷ comm

tid_read : (n : ℕ) → get_elem? (split_at b':' (tid_word n)) 1 ≡ some (str_nat n)
tid_read n =
    field_behind b':' (codes "TID") (str_nat n) (ground arith)
    ∙ ap some (before-digits (str_nat n) (str_nat-All n))

kind_read : (kind : Kind) → get_elem? (split_at 39 (event_word kind)) 1 ≡ some (kind_name kind)
unfolding split_at
kind_read start = refl
kind_read stop = refl

switch_read :
    (ts : ℤ) (tid : ℕ) (kind : Kind) (comm : Text)
    → parse_switch ts (tid_word tid ∷ event_word kind ∷ comm_word comm ∷ [])
      ≡ some (
          some (record { ts = ts; tid = pos tid; event = kind_name kind; comm = before b':' comm }))
switch_read ts tid kind comm =
    unfold parse_switch in
    rw (
      tid_read tid,
      read_pos tid,
      kind_read kind,
      field_behind b':' (codes "COMM") comm (ground arith),
    )

abbrev pub event_words : Event → List Text
event_words event =
    stamp event.ts
    ∷ (codes "PID:" ++ str_nat event.pid)
    ∷ tid_word event.tid
    ∷ event_word event.kind
    ∷ comm_word event.comm
    ∷ []

pub print_event-words :
    (event : Event) → print_event event ≡ join_words (event_words event) ++ b'\n' ∷ []
unfolding print_event join_words
print_event-words event = simp append_assoc

pub prefixed : (c : ℕ) (p t : Text) → All IsSolid (c ∷ p) → All IsSolid t → IsWord ((c ∷ p) ++ t)
prefixed c p t hp ht = ((λ e. cc), All-append IsSolid (c ∷ p) t hp ht)

number-IsSolid : (n : ℕ) → All IsSolid (str_nat n)
number-IsSolid n = digits-IsSolid (str_nat n) (str_nat-All n)

pub stamp-IsWord : (n : ℕ) → IsWord (stamp n)
unfolding is_space
stamp-IsWord n =
    prefixed b'[' [] _ (ground arith)
      (All-append IsSolid (str_nat n) _ (number-IsSolid n) (ground arith))

event_word-IsWord : (kind : Kind) → IsWord (event_word kind)
unfolding is_space
event_word-IsWord start = prefixed b'E' (codes "VENT:b'S'") [] (ground arith) tt
event_word-IsWord stop = prefixed b'E' (codes "VENT:b'E'") [] (ground arith) tt

pub event_words-IsWord : (event : Event) → All IsSolid event.comm → All IsWord (event_words event)
unfolding is_space
event_words-IsWord event h = (
  stamp-IsWord event.ts,
  (
    prefixed b'P' (codes "ID:") _ (ground arith) (number-IsSolid event.pid),
    (
      prefixed b'T' (codes "ID:") _ (ground arith) (number-IsSolid event.tid),
      (event_word-IsWord event.kind, (prefixed b'C' (codes "OMM:") _ (ground arith) h, tt)),
    ),
  ),
)

split-event :
    (event : Event) → All IsSolid event.comm → split (print_event event) ≡ event_words event
split-event event h =
    rw print_event-words (
      unfold split in
      split_from_end (join_words (event_words event)) [] b'\n' (unfold is_space in refl))
    ∙ split-join_words (event_words event) (event_words-IsWord event h)

rest_read :
    (ts : ℤ) (pid tid : ℕ) (kind : Kind) (comm : Text)
    → parse_rest ts
        (codes "PID:" ++ str_nat pid)
        (tid_word tid ∷ event_word kind ∷ comm_word comm ∷ [])
      ≡ some (
          some (record { ts = ts; tid = pos tid; event = kind_name kind; comm = before b':' comm }))
rest_read ts pid tid kind comm = unfold parse_rest in switch_read ts tid kind comm

-- The line of an event is read as its time, its thread, its kind, and its name up to a colon, if there
-- is no white space in the name.
pub parse_log_line-print_event :
    (event : Event)
    → All IsSolid event.comm
    → parse_log_line (print_event event) ≡ some (some (entry_of event))
parse_log_line-print_event event h =
    parse_log_line_words (print_event event)
    ∙ ap parse_parts (split-event event h)
    ∙ stamped event.ts _ _
    ∙ rest_read (pos event.ts) event.pid event.tid event.kind event.comm
