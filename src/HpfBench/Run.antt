-- ===== src/HpfBench/Run.antt =====
-- `run_bench` and `main` of benchmark/xsched_hpf_shmm/run_bench.py, put together from their parts.
pub mod Whole
use pmu_roboflex.Prelude.{
  ℕ, ◌≡◌, Bool, true, false, not, Option, none, some, ◌>>=◌, List, [], ◌∷◌, ◌++◌, Text, length,
  if◌then◌else◌,
}
use pmu_roboflex.Prelude.Int.{ℤ, pos}
use pmu_roboflex.Float.{Float}
use pmu_roboflex.HpfBench.Env.{Environ}
use pmu_roboflex.HpfBench.Launch.{Config, Process, System, Launched, launched, interrupted, launch}
use pmu_roboflex.HpfBench.Wait.{World, Signal, wait, signals}
use pmu_roboflex.HpfBench.Results.{Label, Times, no_times, OutFile, collect}
use pmu_roboflex.HpfBench.Stats.{Stats, Summary, no_samples, index_error, summary, stats}

-- What a run leaves: the processes that it started, the samples, the signals sent, and the files
-- unlinked.
pub record Finished (W : Type 0) : Type 0 where
  pub procs : List Process
  pub times : Times W
  pub sent : List Signal
  pub unlinked : List Text

-- A run comes to its end, or an exception of mkstemp or Popen ends it, with the processes that run and
-- the files that were made.
pub data Ran (W : Type 0) : Type 0 where
  finished : Finished W → Ran W
  os_error : List Process → List Text → Ran W

-- The file of each process, with what `contents` finds in it when it is read.
abbrev pub out_files : (Text → Option (List Text)) → List Process → List OutFile
out_files contents [] = []
out_files contents (p ∷ procs) =
    record { label = p.label; path = p.path; lines = contents p.path } ∷ out_files contents procs

module _ {W : Type 0} (float : Float W) (environ : Environ) (system : System) (world : World)
    (contents : Text → Option (List Text)) where
  abbrev pub finish : List Process → List Signal → Finished W
  finish procs sent =
      let (times, unlinked) = collect float (out_files contents procs) no_times [] in
      record { procs = procs; times = times; sent = sent; unlinked = unlinked }

  -- From the launches on; `none` means that the fuel ran out in the waiting loop.
  unfoldable pub run_launched : ℕ → Launched → Option (Ran W)
  run_launched fuel (interrupted procs paths) = some (os_error procs paths)
  run_launched fuel (launched procs) = do
    ending ← wait world fuel 0 (length procs)
    some (finished (finish procs (signals world ending (length procs))))

  unfoldable pub run_bench : ℕ → Config → Option (Ran W)
  unfolding run_launched
  run_bench fuel cfg = run_launched fuel (launch cfg environ system)

-- The options of the command line.
pub record Args : Type 0 where
  pub lib_path : Text
  pub app_path : Text
  pub num_low : ℤ
  pub no_xsched : Bool
  pub iterations : ℤ
  pub high_kernel_ms : ℤ
  pub low_kernel_ms : ℤ
  pub high_interval_ms : ℤ
  pub low_interval_ms : ℤ
  pub build : Bool

-- The options that have defaults, without any on the command line.
abbrev pub default_args : Text → Text → Args
default_args lib_path app_path = record {
  lib_path = lib_path;
  app_path = app_path;
  num_low = pos 16;
  no_xsched = false;
  iterations = pos 2000;
  high_kernel_ms = pos 1;
  low_kernel_ms = pos 4;
  high_interval_ms = pos 50;
  low_interval_ms = pos 200;
  build = false;
}

unfoldable pub config_of : Args → Config
config_of args = record {
  lib_path = args.lib_path;
  app_path = args.app_path;
  num_low = args.num_low;
  use_xsched = not args.no_xsched;
  high_interval_ms = args.high_interval_ms;
  low_interval_ms = args.low_interval_ms;
  high_kernel_ms = args.high_kernel_ms;
  low_kernel_ms = args.low_kernel_ms;
  iterations = args.iterations;
}

-- The printed report, a constructor for each part: the head, and for each priority its figures.
pub data Line (W : Type 0) : Type 0 where
  head : Bool → ℤ → ℤ → ℤ → Line W
  high_figures low_figures : Stats W → Line W

abbrev pub section : {W : Type 0} → (Stats W → Line W) → Summary W → Option (List (Line W))
section make no_samples = some []
section make (summary st) = some (make st ∷ [])
section make index_error = none

-- `none` is an IndexError of `stats`.
unfoldable pub report : {W : Type 0} → Float W → Args → Times W → Option (List (Line W))
report float args times = do
  hs ← section high_figures (stats float times.high_times)
  ls ← section low_figures (stats float times.low_times)
  some (
      head (not args.no_xsched) args.num_low args.high_interval_ms args.low_interval_ms
      ∷ (hs ++ ls))

-- How the script ends: the exception of a failed build, the exit status 1 where there is no program,
-- after a build that was all that was asked for, by an IndexError of `stats`, by an OSError of the
-- launches, or with its report.
pub data Outcome (W : Type 0) : Type 0 where
  build_error no_program built raised launch_error : Outcome W
  reported : List (Line W) → Outcome W

abbrev pub outcome_of : {W : Type 0} → Option (List (Line W)) → Outcome W
outcome_of none = raised
outcome_of (some lines) = reported lines

-- What `main` does with a run.
unfoldable pub report_run : {W : Type 0} → Float W → Args → Option (Ran W) → Option (Outcome W)
unfolding report
report_run float args none = none
report_run float args (some (os_error procs paths)) = some launch_error
report_run float args (some (finished done)) = some (outcome_of (report float args done.times))

module _ {W : Type 0} (float : Float W) (environ : Environ) (system : System) (world : World)
    (contents : Text → Option (List Text)) where
  -- `made` says whether `make` succeeds, and `exists` whether the program is there behind it.
  unfoldable pub main : ℕ → Bool → Bool → Args → Option (Outcome W)
  unfolding config_of report_run run_bench
  main fuel made exists args =
      if not made
      then some build_error
      else if not exists
      then some no_program
      else if args.build
      then some built
      else report_run float args
          (run_bench float environ system world contents fuel (config_of args))
