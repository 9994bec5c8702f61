-- ===== src/Trace/Parse/LogFile.antt =====
-- The log of benchmark/thread_switch_ebpf/monitor_task.py as a file, and what load_logs of plot_compare.py
-- makes of it.
use pmu_roboflex.Prelude.{
  ℕ, true, ◌≡◌, refl, ap, ◌∙◌, Option, some, List, [], ◌∷◌, ◌++◌, append_assoc, Text, codes, All,
  All-append, arith,
}
use pmu_roboflex.Prelude.Decimal.{str_nat}
use pmu_roboflex.Prelude.Decimal.RoundTrip.{IsDigit, str_nat-All}
use pmu_roboflex.Prelude.Words.{is_space, strip, join_words}
use pmu_roboflex.Prelude.Words.Laws.{IsSolid, IsWord}
use pmu_roboflex.Trace.Files.{IsPlain, IsLine, readlines, newlines, lines_of, readlines-append}
use pmu_roboflex.Trace.Parse.{Entry, parse_log_line, add_entry, load_lines, load_logs}
use pmu_roboflex.Trace.Parse.Fields.{stamp}
use pmu_roboflex.Trace.Parse.Printed.{event_words, print_event-words, event_words-IsWord}
use pmu_roboflex.Trace.Parse.Logs.{
  Output, started, monitoring, switched, external, stopping, print_started, print_monitoring, print,
  print_external-parts, log_of, entries, entry_of_output, IsPrintedLine, parse_log_line-print,
}

number-IsPlain : (n : ℕ) → All IsPlain (str_nat n)
number-IsPlain n = digits-IsPlain (str_nat n) (str_nat-All n)
  where
    digits-IsPlain : (t : Text) → All IsDigit t → All IsPlain t
    digits-IsPlain [] h = tt
    digits-IsPlain (c ∷ t) (hc, ht) = (((λ e. omega arith), λ e. omega arith), digits-IsPlain t ht)

solid_end : (c d : ℕ) → IsSolid c → c ≡ d → is_space d ≡ true → ⊥
solid_end c d h e k = cc

solid-IsPlain : (t : Text) → All IsSolid t → All IsPlain t
unfolding is_space
solid-IsPlain [] h = tt
solid-IsPlain (c ∷ t) (hc, ht) =
    (((λ e. solid_end c b'\n' hc e refl), λ e. solid_end c b'\r' hc e refl), solid-IsPlain t ht)

blank-IsPlain : IsPlain b' '
blank-IsPlain = ((λ e. omega arith), λ e. omega arith)

join_words-IsPlain : (ws : List Text) → All IsWord ws → All IsPlain (join_words ws)
unfolding join_words
join_words-IsPlain [] h = tt
join_words-IsPlain (w ∷ []) (hw, _) = solid-IsPlain w hw.1
join_words-IsPlain (w ∷ v ∷ ws) (hw, hs) =
    All-append IsPlain w _ (solid-IsPlain w hw.1)
      (((λ e. omega arith), λ e. omega arith), join_words-IsPlain (v ∷ ws) hs)

stamp-IsPlain : (n : ℕ) → All IsPlain (stamp n)
stamp-IsPlain n = (
  ((λ e. omega arith), λ e. omega arith),
  All-append IsPlain (str_nat n) _ (number-IsPlain n) (ground arith),
)

print-IsLine : (o : Output) → IsPrintedLine o → IsLine (print o)
print-IsLine (started name pid) h = record {
  body = codes "Started " ++ (name ++ (codes " with PID: " ++ str_nat pid));
  ends = unfold print_started in simp append_assoc;
  plain = All-append IsPlain (codes "Started ") _ (ground arith) (
      All-append IsPlain name _ h
        (All-append IsPlain (codes " with PID: ") _ (ground arith) (number-IsPlain pid)));
}
print-IsLine (monitoring duration) h = record {
  body = codes "Monitoring for " ++ (duration ++ codes " seconds...");
  ends = unfold print_monitoring in simp append_assoc;
  plain =
      All-append IsPlain (codes "Monitoring for ") _ (ground arith)
        (All-append IsPlain duration _ h (ground arith));
}
print-IsLine (switched event) h = record {
  body = join_words (event_words event);
  ends = print_event-words event;
  plain = join_words-IsPlain (event_words event) (event_words-IsWord event h);
}
print-IsLine (external ts message) h = record {
  body = stamp ts ++ b' ' ∷ (codes "EXTERNAL_EVENT:" ++ b' ' ∷ strip message);
  ends = print_external-parts ts message ∙ (simp append_assoc);
  plain =
      All-append IsPlain (stamp ts) (b' ' ∷ (codes "EXTERNAL_EVENT:" ++ b' ' ∷ strip message))
        (stamp-IsPlain ts)
        (
          blank-IsPlain,
          All-append IsPlain (codes "EXTERNAL_EVENT:") (b' ' ∷ strip message) (ground arith)
              (blank-IsPlain, h),
        );
}
print-IsLine stopping h = record {
  body = codes "Stopping processes...";
  ends = refl;
  plain = ground arith;
}

load_lines-cons :
    (line : Text) (lines : List Text) (done : List Entry) {found : Option Entry}
    → parse_log_line line ≡ some found
    → load_lines (line ∷ lines) done ≡ load_lines lines (add_entry found done)
unfolding load_lines
load_lines-cons line lines done e = rw e

load_lines-log_of :
    (outputs : List Output) (done : List Entry)
    → All IsPrintedLine outputs
    → load_lines (readlines (log_of outputs)) done ≡ some (entries outputs done)
load_lines-log_of [] done h = unfold readlines newlines lines_of load_lines in refl
load_lines-log_of (o ∷ os) done (ho, hs) =
    ap (λ lines. load_lines lines done) (readlines-append (print o) (log_of os) (print-IsLine o ho))
    ∙ load_lines-cons (print o) (readlines (log_of os)) done (parse_log_line-print o ho)
    ∙ load_lines-log_of os (add_entry (entry_of_output o) done) hs

-- The log of the monitor is read without an error, if no name and no stripped message holds an end of
-- a line and no name of a thread white space: its entries are, in the order of the log, the events of the watched
-- threads and the ticks.
pub load_logs-log_of :
    (outputs : List Output)
    → All IsPrintedLine outputs
    → load_logs (log_of outputs) ≡ some (entries outputs [])
load_logs-log_of outputs h = unfold load_logs in load_lines-log_of outputs [] h
