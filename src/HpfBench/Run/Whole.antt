-- ===== src/HpfBench/Run/Whole.antt =====
-- A whole run of benchmark/xsched_hpf_shmm/run_bench.py.
use pmu_roboflex.Prelude.{
  ℕ, suc, ◌≤◌, ◌≡◌, refl, ap, ◌∙◌, Bool, true, false, not, Option, some, List, [], ◌∷◌, ◌++◌, map,
  Text, length, if◌then◌else◌, arith,
}
use pmu_roboflex.Float.{Float}
use pmu_roboflex.HpfBench.Env.{Environ}
use pmu_roboflex.HpfBench.Launch.{Config, Process, System, Launched, launched, interrupted, launch}
use pmu_roboflex.HpfBench.Launch.Shape.{HasShape, launch-HasShape}
use pmu_roboflex.Prelude.Int.{pos_part}
use pmu_roboflex.HpfBench.Wait.{World, signals, wait_ends}
use pmu_roboflex.HpfBench.Results.{Times, no_times, OutFile}
use pmu_roboflex.HpfBench.Results.Counts.{total, line_count, collect_accounts}
use pmu_roboflex.HpfBench.Stats.{Stats, stats}
use pmu_roboflex.HpfBench.Stats.Order.{stats-summary}
use pmu_roboflex.HpfBench.Run.{
  Ran, finished, os_error, run_launched, launch_error, report_run, out_files, finish, run_bench,
  Args, config_of, Line, head, high_figures, low_figures, section, report, Outcome, built, reported,
  main,
}

paths-out_files :
    (contents : Text → Option (List Text)) (procs : List Process)
    → map (λ (file : OutFile). file.path) (out_files contents procs)
      ≡ map (λ (p : Process). p.path) procs
paths-out_files contents [] = refl
paths-out_files contents (p ∷ procs) = ap (λ ps. p.path ∷ ps) (paths-out_files contents procs)

section-total :
    {W : Type 0} (float : Float W) (make : Stats W → Line W) (times : List W)
    → (lines : List (Line W)) × (section make (stats float times) ≡ some lines)
section-total float make [] = ([], unfold stats in refl)
section-total float make (x ∷ xs) = let (st, e) = stats-summary float x xs in (make st ∷ [], rw e)

report-total :
    {W : Type 0} (float : Float W) (args : Args) (times : Times W)
    → (lines : List (Line W)) × (report float args times ≡ some lines)
unfolding report
report-total float args times =
    let (hs, eh) = section-total float high_figures times.high_times in
    let (ls, el) = section-total float low_figures times.low_times in
    (
      head (not args.no_xsched) args.num_low args.high_interval_ms args.low_interval_ms
          ∷ (hs ++ ls),
      rw (eh, el),
    )

if_false : {A : Type 0} (b : Bool) (x y : A) → b ≡ false → (if b then x else y) ≡ y
if_false b x y h = ground arith

module _ {W : Type 0} (float : Float W) (environ : Environ) (system : System) (world : World)
    (contents : Text → Option (List Text)) where
  -- What a run leaves, for its launches.
  abbrev pub HasLeft : Config → Ran W → Type 0
  HasLeft cfg (finished done) =
      (launch cfg environ system ≡ launched done.procs)
      × (done.unlinked ≡ map (λ (p : Process). p.path) done.procs)
      × (total float done.times ≤ line_count float (out_files contents done.procs))
  HasLeft cfg (os_error procs paths) = launch cfg environ system ≡ interrupted procs paths

  run_launched-ends :
      (j : ℕ) (cfg : Config) (l : Launched)
      → launch cfg environ system ≡ l
      → world.in_time j ≡ false
      → (ran : Ran W) × (run_launched float environ system world contents (suc j) l ≡ some ran)
        × HasLeft cfg ran
  unfolding run_launched
  run_launched-ends j cfg (interrupted procs paths) e late = (os_error procs paths, refl, e)
  run_launched-ends j cfg (launched procs) e late =
      let (ending, w) = wait_ends world (length procs) j late in
      let (few, unlinked) = collect_accounts float (out_files contents procs) no_times [] in
      (
        finished (
            finish float environ system world contents procs (signals world ending (length procs))),
        rw w refl,
        (e, unlinked ∙ paths-out_files contents procs, omega arith),
      )

  -- If the clock passes the limit at round j, fuel for j + 1 rounds is enough for the whole run, which
  -- ends in one of two ways. If all launches succeed, it has unlinked the temporary file of every process
  -- that it started, once and in order, and has at most as many samples as there are lines in the files.
  -- If an exception of mkstemp or Popen ends the launches, it ends the run: the processes that were
  -- started run on, fewer than asked for, and no file that was made is unlinked, those of these
  -- processes and one more if it was Popen that failed.
  pub run_bench-leaves :
      (j : ℕ) (cfg : Config)
      → world.in_time j ≡ false
      → (ran : Ran W) × (run_bench float environ system world contents (suc j) cfg ≡ some ran)
        × HasLeft cfg ran
        × HasShape cfg environ system 0 (suc (pos_part cfg.num_low)) (launch cfg environ system)
  unfolding run_bench
  run_bench-leaves j cfg late =
      let (ran, e, left) = run_launched-ends j cfg (launch cfg environ system) refl late in
      (ran, e, left, launch-HasShape cfg environ system)

  -- How `main` ends, for the launches of its run.
  abbrev pub HasEnded : Launched → Outcome W → Type 0
  HasEnded (launched procs) ended = (lines : List (Line W)) × (ended ≡ reported lines)
  HasEnded (interrupted procs paths) ended = ended ≡ launch_error

  report_run-HasEnded :
      (args : Args) (ran : Ran W)
      → HasLeft (config_of args) ran
      → (ended : Outcome W) × (report_run float args (some ran) ≡ some ended)
        × HasEnded (launch (config_of args) environ system) ended
  unfolding report_run
  report_run-HasEnded args (os_error procs paths) e = (launch_error, refl, rw e refl)
  report_run-HasEnded args (finished done) (e, _, _) =
      let (lines, r) = report-total float args done.times in
      (reported lines, rw r refl, rw e (lines, refl))

  -- If the clock passes the limit at round j, a run behind a good build that is not asked to build only
  -- ends: with a report if all launches succeed, where no figure is missing an index, also if a priority
  -- has no samples; and by an OSError, without a report, if an exception of mkstemp or Popen ends the
  -- launches.
  pub main-ends :
      (j : ℕ) (args : Args)
      → world.in_time j ≡ false
      → args.build ≡ false
      → (ended : Outcome W) × (main float environ system world contents (suc j) true true args
          ≡ some ended)
        × HasEnded (launch (config_of args) environ system) ended
  unfolding main
  main-ends j args late runs =
      let (ran, e, left, _) = run_bench-leaves j (config_of args) late in
      let (ended, r, how) = report_run-HasEnded args ran left in
      (ended, if_false args.build (some built) _ runs ∙ ap (report_run float args) e ∙ r, how)
