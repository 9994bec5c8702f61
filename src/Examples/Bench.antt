-- ===== src/Examples/Bench.antt =====
-- Runs of benchmark/xsched_hpf_shmm/run_bench.py.
use mathlib.Core.List.{Mem}
use pmu_roboflex.Prelude.{
  ℕ, Option, none, some, suc, ◌+◌, ◌≤◌, ◌≡◌, ◌≢◌, ◌↔◌, refl, Bool, true, false, not, none, some,
  List, [], ◌∷◌, ◌++◌, Text, codes, All, ltb, leb, ◌==◌, ◌&&◌, map, arith,
}
use pmu_roboflex.Prelude.Int.{pos}
use pmu_roboflex.Prelude.Decimal.{parse_int}
use pmu_roboflex.Prelude.Words.{is_space}
use pmu_roboflex.Examples.Numbers.{whole, whole-IsOrdered}
use pmu_roboflex.HpfBench.Stats.{Stats, stats, summary}
use pmu_roboflex.HpfBench.Stats.Order.{Describes, stats-Describes}
use pmu_roboflex.HpfBench.Results.{high, low, no_times, OutFile, read_file, collect}
use pmu_roboflex.HpfBench.Results.Counts.{
  Sample, header, printed_rows, add_samples, total, line_count, IsPrinted, read_file-printed,
  collect_accounts,
}
use pmu_roboflex.HpfBench.Env.{Environ, is_xsched_key}
use pmu_roboflex.HpfBench.Run.{Ran, run_bench, Args, default_args, config_of, Outcome, main}
use pmu_roboflex.HpfBench.Run.Whole.{HasLeft, HasEnded, run_bench-leaves, main-ends}
use pmu_roboflex.HpfBench.Launch.{Config, System, launch}
use pmu_roboflex.HpfBench.Launch.Shape.{HasShape, launch-HasShape}
use pmu_roboflex.HpfBench.Wait.{
  all_finished, Moment, round, at_timeout, after_grace, World, terminate, kill, all_done, timed_out,
  wait, signals, signals_timed_out,
}

abbrev times : List ℕ
times = 7 ∷ 3 ∷ 9 ∷ 3 ∷ []

times_filled : times ≢ []
times_filled e = cc

stats-Describes_example :
    (st : Stats ℕ) × (stats whole times ≡ summary st) × (s : List ℕ) × Describes whole times s st
stats-Describes_example =
    stats-Describes whole (λ _. Unit) whole-IsOrdered times times_filled (tt, (tt, (tt, (tt, tt))))

abbrev samples : List (Sample ℕ)
samples =
    record { task = 0; kernel_ms = codes "125"; total_ms = codes "130"; km = 125 }
    ∷ record { task = 1; kernel_ms = codes "118"; total_ms = codes "121"; km = 118 }
    ∷ []

samples-IsPrinted : All (IsPrinted whole) samples
unfolding is_space parse_int
samples-IsPrinted = ground arith

read_file-printed_example :
    read_file whole
      (record {
        label = low;
        path = codes "/tmp/a";
        lines = some (header ∷ printed_rows whole 3 low samples);
      })
      no_times
    ≡ add_samples whole low samples no_times
read_file-printed_example =
    read_file-printed whole low low 3 (codes "/tmp/a") samples no_times samples-IsPrinted

abbrev files : List OutFile
files =
    record {
      label = high;
      path = codes "/tmp/h";
      lines = some (header ∷ codes "0,high,0,5,6\n" ∷ codes "\n" ∷ []);
    }
    ∷ record { label = low; path = codes "/tmp/l"; lines = none }
    ∷ []

collect_accounts_example :
    (total whole (collect whole files no_times []).0
      ≤ total whole no_times + line_count whole files)
    × ((collect whole files no_times []).1 ≡ [] ++ map (λ file. file.path) files)
collect_accounts_example = collect_accounts whole files no_times []

abbrev environ : Environ
environ = (codes "LD_LIBRARY_PATH", codes "/usr/lib") ∷ (codes "HOME", codes "/root") ∷ []

home_is_kept : is_xsched_key (codes "HOME") ≡ false
home_is_kept = refl

abbrev config : Config
config = record {
  lib_path = codes "/x/lib";
  app_path = codes "./cuda_bench_app";
  num_low = pos 2;
  use_xsched = true;
  high_interval_ms = pos 50;
  low_interval_ms = pos 200;
  high_kernel_ms = pos 1;
  low_kernel_ms = pos 4;
  iterations = pos 100;
}

-- The third file can be made, but its process cannot be started.
abbrev working : System
working = record { mkstemp = λ n suffix. some (codes "/tmp/t" ++ suffix); popen = λ n. true }

abbrev crowded : System
crowded = record {
  mkstemp = λ n suffix. some (codes "/tmp/t" ++ suffix);
  popen = λ n. not (n == 2);
}

launch-HasShape_example : HasShape config environ crowded 0 3 (launch config environ crowded)
launch-HasShape_example = launch-HasShape config environ crowded

-- The first process ends behind round 2, the second hangs.
abbrev running_at : Moment → ℕ → Bool
running_at (round k) i = not (i == 0 && leb 2 k)
running_at at_timeout i = not (i == 0)
running_at after_grace i = not (i == 0)

abbrev hanging : World
hanging = record { in_time = λ k. ltb k 5; running = running_at }

abbrev ending : World
ending = record { in_time = λ k. true; running = λ m i. false }

ending_breaks : wait ending 1 0 2 ≡ some (all_done 0)
unfolding wait all_finished
ending_breaks = refl

signals_timed_out_example :
    (Mem (terminate 1) (signals hanging (timed_out 5) 2) ↔ (true ≡ true))
    × (Mem (kill 1) (signals hanging (timed_out 5) 2) ↔ (true ≡ true))
signals_timed_out_example = signals_timed_out hanging 2 5 1 (omega arith)

abbrev contents : Text → Option (List Text)
contents path = some (header ∷ codes "0,high,0,125,130\n" ∷ [])

run_bench-leaves_example :
    (ran : Ran ℕ) × (run_bench whole environ working hanging contents (suc 5) config ≡ some ran)
    × HasLeft whole environ working hanging contents config ran
    × HasShape config environ working 0 3 (launch config environ working)
run_bench-leaves_example = run_bench-leaves whole environ working hanging contents 5 config refl

abbrev no_options : Args
no_options = default_args (codes "/x/lib") (codes "./cuda_bench_app")

main-ends_example :
    (ended : Outcome ℕ) × (main whole environ working hanging contents (suc 5) true true no_options
      ≡ some ended)
    × HasEnded whole environ working hanging contents
        (launch (config_of no_options) environ working)
        ended
main-ends_example = main-ends whole environ working hanging contents 5 no_options refl refl
