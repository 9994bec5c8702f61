-- ===== src/Trace/Monitor/Tasks/Ends.antt =====
-- What becomes of the processes of benchmark/thread_switch_ebpf/monitor_task.py.
use pmu_roboflex.Prelude.{
  ℕ, ◌+◌, ◌≡◌, refl, ap, Bool, true, false, Bool-cases, Option-cases, inl, inr, none, some, List,
  [], ◌∷◌, ◌++◌, length, length-append, if◌then◌else◌, arith,
}
use pmu_roboflex.Prelude.Words.{split, strip}
use pmu_roboflex.Trace.Monitor.Tasks.{
  TaskConfig, Spawn, Monitor, idle, watch, start_tasks, finish, main,
}

module _ (spawn : Spawn) where
  start_tasks-none :
      (n : ℕ) (task : TaskConfig) (tasks : List TaskConfig) (m : Monitor)
      → spawn n (split (strip task.cmd)) ≡ none
      → start_tasks spawn n (task ∷ tasks) m ≡ (false, m)
  unfolding start_tasks
  start_tasks-none n task tasks m h = rw (h, start_tasks)

  start_tasks-some :
      (n : ℕ) (task : TaskConfig) (tasks : List TaskConfig) (m : Monitor) (pid : ℕ)
      → spawn n (split (strip task.cmd)) ≡ some pid
      → start_tasks spawn n (task ∷ tasks) m
        ≡ start_tasks spawn (n + 1) tasks (watch task.name pid m)
  unfolding start_tasks
  start_tasks-some n task tasks m pid h = rw (h, start_tasks)

  -- What holds while the tasks start.
  record IsStarting (m : Monitor) : Type 0 where
    watched : m.watched ≡ m.procs
    running : m.terminated ≡ []
    socket : m.socket_removed ≡ false

  start_tasks-IsStarting :
      (n : ℕ) (tasks : List TaskConfig) (m : Monitor)
      → IsStarting m
      → IsStarting (start_tasks spawn n tasks m).1
        × ((start_tasks spawn n tasks m).0 ≡ true
            → length (start_tasks spawn n tasks m).1.procs ≡ length m.procs + length tasks)
  start_tasks-IsStarting n [] m h = unfold start_tasks in (h, λ _. omega arith)
  start_tasks-IsStarting n (task ∷ tasks) m h =
      elim (Option-cases (spawn n (split (strip task.cmd)))) [
        | inl fails ↦ rw (start_tasks-none n task tasks m fails) (h, λ e. absurd (wrong e))
        | inr (pid, starts) ↦
            let (starting, count) =
              start_tasks-IsStarting (n + 1) tasks (watch task.name pid m) (record {
                watched = ap (λ ps. ps ++ pid ∷ []) h.watched;
                running = h.running;
                socket = h.socket;
              }) in
            rw (start_tasks-some n task tasks m pid starts)
              (starting, λ ok. omega (arith, count ok, length-append m.procs (pid ∷ [])))
      ]
    where
      wrong : false ≡ true → ⊥
      wrong e = cc

  main_ok :
      (tasks : List TaskConfig)
      → (start_tasks spawn 0 tasks idle).0 ≡ true
      → main spawn tasks ≡ (true, finish spawn (start_tasks spawn 0 tasks idle).1)
  unfolding main
  main_ok tasks h = rw (h, main)

  main_failed :
      (tasks : List TaskConfig)
      → (start_tasks spawn 0 tasks idle).0 ≡ false
      → main spawn tasks ≡ (false, (start_tasks spawn 0 tasks idle).1)
  unfolding main
  main_failed tasks h = rw (h, main)

  -- How many processes there are, and which are watched and terminated.
  pub record IsEnded (tasks : List TaskConfig) (ok : Bool) (m : Monitor) : Type 0 where
    pub watched : m.watched ≡ m.procs
    pub all_started : (if ok then length m.procs else length tasks) ≡ length tasks
    pub ended : m.terminated ≡ (if ok then m.procs else [])
    pub cleaned : m.socket_removed ≡ ok

  -- The processes that are watched are those that were started. If every task could start, there is one
  -- process for each, all of them are terminated in the end and the socket is removed; if one could not,
  -- those in front of it are left running, and the socket is left.
  pub main-IsEnded :
      (tasks : List TaskConfig) → IsEnded tasks (main spawn tasks).0 (main spawn tasks).1
  main-IsEnded tasks =
      let (starting, count) =
        start_tasks-IsStarting 0 tasks idle
          (record { watched = refl; running = refl; socket = refl }) in
      elim (Bool-cases (start_tasks spawn 0 tasks idle).0) [
        | inl ok ↦ rw (main_ok tasks ok) (
            unfold finish in
            record {
              watched = starting.watched;
              all_started = omega (arith, count ok);
              ended = refl;
              cleaned = refl;
            })
        | inr failed ↦ rw (main_failed tasks failed) (record {
          watched = starting.watched;
          all_started = refl;
          ended = starting.running;
          cleaned = starting.socket;
        })
      ]
