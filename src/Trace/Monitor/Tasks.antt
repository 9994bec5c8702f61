-- ===== src/Trace/Monitor/Tasks.antt =====
-- benchmark/thread_switch_ebpf/monitor_task.py, main: the tasks that the monitor starts, watches and
-- terminates. BPF and the kernel are not modelled: `Spawn` is what `subprocess.Popen` gives.
pub mod Ends
use pmu_roboflex.Prelude.{
  ℕ, ◌+◌, ◌≡◌, Bool, true, false, Option, none, some, List, [], ◌∷◌, ◌++◌, Text, codes,
}
use pmu_roboflex.Prelude.Words.{split, strip}

-- A task of the configuration.
pub record TaskConfig : Type 0 where
  pub name : Text
  pub cmd : Text

-- The n-th call of Popen, with its words: the process id, or an exception (an OSError, or an IndexError
-- where there are no words).
abbrev pub Spawn : Type 0
Spawn = ℕ → List Text → Option ℕ

pub record Monitor : Type 0 where
  -- `procs`
  pub procs : List ℕ
  -- the keys of `target_pids_map`
  pub watched : List ℕ
  -- the names and process ids of the prints
  pub announced : List (Text × ℕ)
  pub terminated : List ℕ
  -- the socket of the messages is removed
  pub socket_removed : Bool

abbrev pub idle : Monitor
idle = record { procs = []; watched = []; announced = []; terminated = []; socket_removed = false }

abbrev pub watch : Text → ℕ → Monitor → Monitor
watch name pid m = record m {
  procs = m.procs ++ pid ∷ [];
  watched = m.watched ++ pid ∷ [];
  announced = m.announced ++ (name, pid) ∷ [];
}

module _ (spawn : Spawn) where
  -- The loop over the tasks from the n-th on; `false` is an exception of Popen.
  unfoldable pub start_tasks : ℕ → List TaskConfig → Monitor → Bool × Monitor
  start_tasks n [] m = (true, m)
  start_tasks n (task ∷ tasks) m = elim (spawn n (split (strip task.cmd))) [
    | none ↦ (false, m)
    | some pid ↦ start_tasks (n + 1) tasks (watch task.name pid m)
  ]

  -- The `finally` of the polling, which comes however the polling ends.
  unfoldable pub finish : Monitor → Monitor
  finish m = record m { terminated = m.procs; socket_removed = true }

  -- The tasks start in front of the `try`.
  unfoldable pub main : List TaskConfig → Bool × Monitor
  unfolding start_tasks finish
  main tasks =
      let (ok, m) = start_tasks 0 tasks idle in
      elim ok [ true ↦ (true, finish m) | false ↦ (false, m) ]
