-- ===== src/HpfBench/Launch/Shape.antt =====
-- The processes and files of `run_bench` behind its launches (benchmark/xsched_hpf_shmm/run_bench.py).
use pmu_roboflex.Prelude.{
  ℕ, zero, suc, ◌+◌, ◌<◌, ◌≡◌, refl, ap, Bool, true, false, Bool-cases, Option-cases, none, some,
  inl, inr, ◌⊎◌, List, [], ◌∷◌, ◌++◌, Text, codes, length, if◌then◌else◌, arith,
}
use pmu_roboflex.Prelude.Int.{pos_part}
use pmu_roboflex.Prelude.Decimal.{str_nat, str_int}
use pmu_roboflex.HpfBench.Env.{Environ, get_xsched_env, IsXschedEnv, get_xsched_env-IsXschedEnv}
use pmu_roboflex.HpfBench.Results.{Label, high, low}
use pmu_roboflex.HpfBench.Launch.{
  Config, Process, System, Start, started, no_file, no_process, Launched, launched, interrupted,
  in_front, env_for, command, start_in, launch_high, launch_low, launch_lows, launch,
}

-- The environment of a process, with XSched or as the caller has it.
abbrev pub HasEnv : Bool → Text → Label → Environ → Environ → Type 0
HasEnv true lib_path priority environ env = IsXschedEnv lib_path priority environ env
HasEnv false lib_path priority environ env = env ≡ environ

-- The label of a number, and the name of its file.
abbrev pub label_of : ℕ → Label
label_of zero = high
label_of (suc i) = low

abbrev pub suffix_of : ℕ → Text
suffix_of zero = codes "_high.csv"
suffix_of (suc i) = codes "_low_" ++ str_nat (suc i) ++ codes ".csv"

module _ (cfg : Config) (environ : Environ) (system : System) where
  abbrev pub args_of : Label → ℕ → List Text
  args_of high id =
      cfg.app_path
      ∷ codes "--priority"
      ∷ codes "high"
      ∷ codes "--kernel-ms"
      ∷ str_int cfg.high_kernel_ms
      ∷ codes "--interval-ms"
      ∷ str_int cfg.high_interval_ms
      ∷ codes "--iterations"
      ∷ str_int cfg.iterations
      ∷ codes "--id"
      ∷ str_nat id
      ∷ []
  args_of low id =
      cfg.app_path
      ∷ codes "--priority"
      ∷ codes "low"
      ∷ codes "--kernel-ms"
      ∷ str_int cfg.low_kernel_ms
      ∷ codes "--interval-ms"
      ∷ str_int cfg.low_interval_ms
      ∷ codes "--iterations"
      ∷ str_int cfg.iterations
      ∷ codes "--id"
      ∷ str_nat id
      ∷ []

  -- The process with a number: it could be started, with its command line and its environment.
  pub record IsStarted (id : ℕ) (p : Process) : Type 0 where
    pub label_is : p.label ≡ label_of id
    pub id_is : p.id ≡ id
    pub args_are : p.args ≡ args_of (label_of id) id
    pub env_is : HasEnv cfg.use_xsched cfg.lib_path (label_of id) environ p.env
    pub made : system.mkstemp id (suffix_of id) ≡ some p.path
    pub runs : system.popen id ≡ true

  -- The processes with the numbers from `first` on.
  abbrev pub AreStarted : ℕ → List Process → Type 0
  AreStarted first [] = Unit
  AreStarted first (p ∷ procs) = IsStarted first p × AreStarted (suc first) procs

  -- The files behind an exception: those of the processes, and the one that was made for a process that
  -- could not be started, unless there was none.
  abbrev pub HaveLeft : ℕ → List Process → List Text → Type 0
  HaveLeft first [] paths =
      ((system.mkstemp first (suffix_of first) ≡ none) × (paths ≡ []))
      ⊎ ((path : Text) × (system.mkstemp first (suffix_of first) ≡ some path)
          × (system.popen first ≡ false)
          × (paths ≡ path ∷ []))
  HaveLeft first (p ∷ procs) paths =
      (more : List Text) × (paths ≡ p.path ∷ more) × HaveLeft (suc first) procs more

  -- So many rounds from a number on.
  abbrev pub HasShape : ℕ → ℕ → Launched → Type 0
  HasShape first rounds (launched procs) = (length procs ≡ rounds) × AreStarted first procs
  HasShape first rounds (interrupted procs paths) =
      (length procs < rounds) × AreStarted first procs × HaveLeft first procs paths

  -- One round.
  abbrev HasStarted : ℕ → Start → Type 0
  HasStarted id (started p) = IsStarted id p
  HasStarted id no_file = system.mkstemp id (suffix_of id) ≡ none
  HasStarted id (no_process path) =
      (system.mkstemp id (suffix_of id) ≡ some path) × (system.popen id ≡ false)

  env_for-HasEnv :
      (label : Label)
      → HasEnv cfg.use_xsched cfg.lib_path label environ (env_for cfg environ system label)
  unfolding env_for
  env_for-HasEnv label = go cfg.use_xsched
    where
      go :
          (b : Bool)
          → HasEnv b cfg.lib_path label environ
              (if b then get_xsched_env cfg.lib_path label environ else environ)
      go true = get_xsched_env-IsXschedEnv cfg.lib_path label environ
      go false = refl

  start_in-HasStarted :
      (id : ℕ) (args : List Text)
      → args ≡ args_of (label_of id) id
      → HasStarted id
          (start_in cfg environ system (label_of id) id args (system.mkstemp id (suffix_of id)))
  unfolding start_in
  start_in-HasStarted id args h = elim (Option-cases (system.mkstemp id (suffix_of id))) [
    | inl fails ↦ rw fails fails
    | inr (path, gives) ↦ elim (Bool-cases (system.popen id)) [
      | inl runs ↦
          rw (gives, runs)
            (record {
              label_is = refl;
              id_is = refl;
              args_are = h;
              env_is = env_for-HasEnv (label_of id);
              made = gives;
              runs = runs;
            })
      | inr stops ↦ rw (gives, stops) (gives, stops)
    ]
  ]

  launch_high-HasStarted : HasStarted 0 (launch_high cfg environ system)
  unfolding launch_high command
  launch_high-HasStarted = start_in-HasStarted 0 _ refl

  launch_low-HasStarted : (i : ℕ) → HasStarted (suc i) (launch_low cfg environ system (suc i))
  unfolding launch_low command
  launch_low-HasStarted i = start_in-HasStarted (suc i) _ refl

  in_front-HasShape :
      (first rounds : ℕ) (s : Start) (rest : Launched)
      → HasStarted first s
      → HasShape (suc first) rounds rest
      → HasShape first (suc rounds) (in_front s rest)
  unfolding in_front
  in_front-HasShape first rounds (started p) (launched procs) h (n, hs) = (ap suc n, (h, hs))
  in_front-HasShape first rounds (started p) (interrupted procs paths) h (n, hs, left) =
      (omega arith, (h, hs), (paths, refl, left))
  in_front-HasShape first rounds no_file rest h r = (omega arith, tt, inl (h, refl))
  in_front-HasShape first rounds (no_process path) rest (h, k) r =
      (omega arith, tt, inr (path, h, k, refl))

  launch_lows-HasShape :
      (i rounds : ℕ) → HasShape (suc i) rounds (launch_lows cfg environ system (suc i) rounds)
  unfolding launch_lows
  launch_lows-HasShape i zero = (refl, tt)
  launch_lows-HasShape i (suc rounds) =
      let next : suc i + 1 ≡ suc (suc i) = omega arith in
      in_front-HasShape (suc i) rounds (launch_low cfg environ system (suc i)) _
        (launch_low-HasStarted i) (rw next (launch_lows-HasShape (suc i) rounds))

  -- Either every process could be started, and there is one more than `num_low` says (with none for a
  -- negative number), or an exception of mkstemp or Popen has ended the launches, and there are fewer.
  -- The processes have the numbers from 0 on, the first with high priority and the others with low;
  -- each has the command line of its priority and number, and with XSched the scheduler's environment
  -- for its priority, without it the caller's. Behind an exception the files are those of the processes
  -- that run, and one more if it was Popen that failed.
  pub launch-HasShape : HasShape 0 (suc (pos_part cfg.num_low)) (launch cfg environ system)
  unfolding launch
  launch-HasShape =
      in_front-HasShape 0 (pos_part cfg.num_low) (launch_high cfg environ system) _
        launch_high-HasStarted (launch_lows-HasShape 0 (pos_part cfg.num_low))
