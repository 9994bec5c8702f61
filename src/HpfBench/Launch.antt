-- ===== src/HpfBench/Launch.antt =====
-- The processes that `run_bench` starts (benchmark/xsched_hpf_shmm/run_bench.py), with the exceptions of
-- tempfile.mkstemp and subprocess.Popen.
pub mod Shape
use pmu_roboflex.Prelude.{
  ℕ, zero, suc, ◌+◌, ◌≡◌, Bool, Option, none, some, List, [], ◌∷◌, ◌++◌, Text, codes, if◌then◌else◌,
}
use pmu_roboflex.Prelude.Int.{ℤ, pos_part}
use pmu_roboflex.Prelude.Decimal.{str_nat, str_int}
use pmu_roboflex.HpfBench.Env.{Environ, get_xsched_env}
use pmu_roboflex.HpfBench.Results.{Label, high, low}
use pmu_roboflex.HpfBench.Results.Rows.{priority_name}

pub record Config : Type 0 where
  pub lib_path : Text
  pub app_path : Text
  pub num_low : ℤ
  pub use_xsched : Bool
  pub high_interval_ms : ℤ
  pub low_interval_ms : ℤ
  pub high_kernel_ms : ℤ
  pub low_kernel_ms : ℤ
  pub iterations : ℤ

-- A process with its label and number in `procs`, and its output file in `out_files`.
pub record Process : Type 0 where
  pub label : Label
  pub id : ℕ
  pub args : List Text
  pub env : Environ
  pub path : Text

-- What the system answers to the start of the process with a number.
pub record System : Type 0 where
  -- the path that tempfile.mkstemp gives for a suffix; `none` is an OSError
  pub mkstemp : ℕ → Text → Option Text
  -- whether subprocess.Popen starts the process; `false` is an OSError
  pub popen : ℕ → Bool

-- One round: a process, or an exception without or with a file.
pub data Start : Type 0 where
  started : Process → Start
  no_file : Start
  no_process : Text → Start

-- All the rounds, or those up to an exception: the processes, and with an exception the files that
-- were made.
pub data Launched : Type 0 where
  launched : List Process → Launched
  interrupted : List Process → List Text → Launched

abbrev pub with_process : Process → Launched → Launched
with_process p (launched procs) = launched (p ∷ procs)
with_process p (interrupted procs paths) = interrupted (p ∷ procs) (p.path ∷ paths)

-- A round and the rounds behind it, which an exception leaves out.
unfoldable pub in_front : Start → Launched → Launched
in_front (started p) rest = with_process p rest
in_front no_file rest = interrupted [] []
in_front (no_process path) rest = interrupted [] (path ∷ [])

module _ (cfg : Config) (environ : Environ) (system : System) where
  unfoldable pub env_for : Label → Environ
  env_for priority =
      if cfg.use_xsched then get_xsched_env cfg.lib_path priority environ else environ

  unfoldable pub command : Label → ℤ → ℤ → ℕ → List Text
  command priority kernel_ms interval_ms id =
      cfg.app_path
      ∷ codes "--priority"
      ∷ priority_name priority
      ∷ codes "--kernel-ms"
      ∷ str_int kernel_ms
      ∷ codes "--interval-ms"
      ∷ str_int interval_ms
      ∷ codes "--iterations"
      ∷ str_int cfg.iterations
      ∷ codes "--id"
      ∷ str_nat id
      ∷ []

  -- Popen, with the file that mkstemp has given for the output.
  unfoldable pub start_in : Label → ℕ → List Text → Option Text → Start
  unfolding env_for
  start_in label id args none = no_file
  start_in label id args (some path) =
      if system.popen id
      then started
          (record { label = label; id = id; args = args; env = env_for label; path = path })
      else no_process path

  unfoldable pub launch_high : Start
  unfolding start_in command
  launch_high =
      start_in high 0 (command high cfg.high_kernel_ms cfg.high_interval_ms 0)
        (system.mkstemp 0 (codes "_high.csv"))

  unfoldable pub launch_low : ℕ → Start
  unfolding start_in command
  launch_low i =
      start_in low i (command low cfg.low_kernel_ms cfg.low_interval_ms i)
        (system.mkstemp i (codes "_low_" ++ str_nat i ++ codes ".csv"))

  -- `for i in range(first, first + rounds)`.
  unfoldable pub launch_lows : ℕ → ℕ → Launched
  unfolding launch_low in_front
  launch_lows first zero = launched []
  launch_lows first (suc rounds) = in_front (launch_low first) (launch_lows (first + 1) rounds)

  -- A negative number of low processes is none.
  unfoldable pub launch : Launched
  unfolding launch_high launch_lows
  launch = in_front launch_high (launch_lows 1 (pos_part cfg.num_low))
