-- ===== src/Examples/Trace.antt =====
-- A log of benchmark/thread_switch_ebpf.
use pmu_roboflex.Prelude.{
  ℕ, map, length, ◌≤◌, ◌≡◌, ◌⊎◌, Bool, none, some, List, [], ◌∷◌, ◌++◌, codes, All, ◌==◌, ◌+◌,
  false, ltb, if◌then◌else◌, arith,
}
use pmu_roboflex.Prelude.Int.{pos}
use pmu_roboflex.Prelude.Words.{is_space, strip}
use pmu_roboflex.Trace.Monitor.{Task, start, stop, event_of, on_raw_tracepoint, on_kprobe}
use pmu_roboflex.Trace.Parse.{parse_log_line, load_logs}
use pmu_roboflex.Trace.Parse.Plot
use pmu_roboflex.Trace.Parse.Plot.{parse_log_line_refine}
use pmu_roboflex.Trace.Parse.Logs.{
  Output, started, monitoring, switched, external, stopping, log_of, entries, IsPrintedLine,
}
use pmu_roboflex.Trace.Parse.LogFile.{load_logs-log_of}
use pmu_roboflex.Trace.Parse.{Entry}
use pmu_roboflex.Trace.Segments.{build_segments}
use pmu_roboflex.Trace.Segments.Window.{IsDrawn, IsInside, build_segments-IsDrawn}
use pmu_roboflex.Trace.Segments.Order.{build_segments-handlers}
use pmu_roboflex.Trace.Parse.Printed.{entry_of}
use pmu_roboflex.Trace.Timeline.{draw_timeline}
use pmu_roboflex.Trace.Timeline.Drawn.{tick_count, draw_timeline-counts}
use pmu_roboflex.Trace.Merged.{Rectangle, draw_timeline_merged}
use pmu_roboflex.Trace.Merged.Clipped.{IsCutRow, draw_timeline_merged-IsCutRow}
use pmu_roboflex.Trace.Monitor.Tasks.{TaskConfig, Spawn, main}
use pmu_roboflex.Trace.Monitor.Tasks.Ends.{IsEnded, main-IsEnded}
use pmu_roboflex.Examples.Numbers.{whole, whole-IsTimeline}

abbrev task_a : Task
task_a = record { tgid = 70; pid = 71; comm = codes "taskA" }

abbrev worker : Task
worker = record { tgid = 2; pid = 2; comm = codes "kworker/0:1" }

abbrev watched : ℕ → Bool
watched n = n == 70

abbrev outputs : List Output
outputs =
    started (codes "Task_A") 70
    ∷ switched (event_of start 900 task_a)
    ∷ external 950 (codes "a TICK \n")
    ∷ external 960 (codes "hello")
    ∷ monitoring (codes "10")
    ∷ switched (event_of stop 1000 worker)
    ∷ stopping
    ∷ []

outputs-IsPrintedLine : All IsPrintedLine outputs
unfolding is_space strip
outputs-IsPrintedLine = ground arith

load_logs-log_of_example : load_logs (log_of outputs) ≡ some (entries outputs [])
load_logs-log_of_example = load_logs-log_of outputs outputs-IsPrintedLine

parse_log_line_refine_example :
    (parse_log_line (codes "[9] PID:1 TID:2 EVENT:b'S' COMM:a\n") ≡ some none)
    ⊎ (Plot.parse_log_line (codes "[9] PID:1 TID:2 EVENT:b'S' COMM:a\n")
        ≡ parse_log_line (codes "[9] PID:1 TID:2 EVENT:b'S' COMM:a\n"))
parse_log_line_refine_example = parse_log_line_refine (codes "[9] PID:1 TID:2 EVENT:b'S' COMM:a\n")

abbrev first_log : Entry
first_log = record { ts = pos 10; tid = pos 71; event = codes "S"; comm = codes "taskA" }

abbrev other_logs : List Entry
other_logs =
    record { ts = pos 140; tid = pos 0; event = codes "TICK"; comm = [] }
    ∷ record { ts = pos 150; tid = pos 71; event = codes "E"; comm = codes "taskA" }
    ∷ record { ts = pos 170; tid = pos 71; event = codes "S"; comm = codes "taskB" }
    ∷ record { ts = pos 190; tid = pos 71; event = codes "E"; comm = codes "taskB" }
    ∷ []

abbrev logs : List Entry
logs = first_log ∷ other_logs

build_segments-IsDrawn_example :
    All (IsDrawn whole) (build_segments whole logs).0
    × All (IsInside whole) (build_segments whole logs).1
build_segments-IsDrawn_example = build_segments-IsDrawn whole whole-IsTimeline logs

draw_timeline_merged-IsCutRow_example :
    (ltb 200 (draw_timeline_merged whole logs logs).0 ≡ false)
    × IsCutRow whole
        (draw_timeline_merged whole logs logs).0
        (draw_timeline_merged whole logs logs).1
    × IsCutRow whole
        (draw_timeline_merged whole logs logs).0
        (draw_timeline_merged whole logs logs).2
draw_timeline_merged-IsCutRow_example =
    draw_timeline_merged-IsCutRow whole whole-IsTimeline logs logs

-- The second task fails to start.
abbrev spawn : Spawn
spawn n words = if n == 1 then none else some (100 + n)

abbrev tasks : List TaskConfig
tasks =
    record { name = codes "Task_A"; cmd = codes "./taskA 10" }
    ∷ record { name = codes "Task_B"; cmd = codes "./missing" }
    ∷ []

main-IsEnded_example : IsEnded spawn tasks (main spawn tasks).0 (main spawn tasks).1
main-IsEnded_example = main-IsEnded spawn tasks

abbrev before : List Entry
before = record { ts = pos 10; tid = pos 71; event = codes "S"; comm = codes "taskA" } ∷ []

abbrev after : List Entry
after = record { ts = pos 190; tid = pos 71; event = codes "E"; comm = codes "taskB" } ∷ []

abbrev task_b : Task
task_b = record { tgid = 70; pid = 72; comm = codes "taskB" }

build_segments-handlers_example :
    build_segments whole
      (before ++ (map entry_of (on_raw_tracepoint watched 0 150 task_a task_b) ++ after))
    ≡ build_segments whole
        (before ++ (map entry_of (on_kprobe watched 0 150 task_a task_b) ++ after))
build_segments-handlers_example =
    build_segments-handlers whole watched 0 150 task_a task_b before after

draw_timeline-counts_example :
    (rectangles : List (Rectangle ℕ)) × (ticks : List ℕ) × (draw_timeline whole logs
      ≡ some (rectangles, ticks))
    × (length ticks ≡ tick_count logs)
    × (length rectangles ≤ length logs)
draw_timeline-counts_example = draw_timeline-counts whole first_log other_logs
