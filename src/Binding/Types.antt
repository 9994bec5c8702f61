-- ===== src/Binding/Types.antt =====
-- The types and constants of src/python/pmu_tick_api.py: the structs and enums of `ffi.cdef`, the
-- constants of the module, and localcontext_alloc. An integer of a struct is a number below 2^32 or 2^64,
-- or a signed one.
use pmu_roboflex.Prelude.{ℕ, ◌≡◌, refl}
use pmu_roboflex.Prelude.Int.{ℤ, pos}

pub data RunPolicy : Type 0 where
  yielding predetermined immediate latency_oriented : RunPolicy

pub data SystemBusyDegree : Type 0 where
  system_idle system_moderate system_high : SystemBusyDegree

-- The values of the enums of the declarations.
abbrev pub policy_number : RunPolicy → ℕ
policy_number yielding = 0
policy_number predetermined = 1
policy_number immediate = 2
policy_number latency_oriented = 3

abbrev pub degree_number : SystemBusyDegree → ℕ
degree_number system_idle = 0
degree_number system_moderate = 1
degree_number system_high = 2

-- The constants of the classes RunPolicy and SystemBusyDegree.
abbrev pub run_policy_constant : RunPolicy → ℕ
run_policy_constant yielding = 0
run_policy_constant predetermined = 1
run_policy_constant immediate = 2
run_policy_constant latency_oriented = 3

abbrev pub busy_degree_constant : SystemBusyDegree → ℕ
busy_degree_constant system_idle = 0
busy_degree_constant system_moderate = 1
busy_degree_constant system_high = 2

abbrev pub sched_normal : ℕ
sched_normal = 0

abbrev pub sched_fifo : ℕ
sched_fifo = 1

abbrev pub sched_rr : ℕ
sched_rr = 2

abbrev pub sched_batch : ℕ
sched_batch = 3

abbrev pub sched_iso : ℕ
sched_iso = 4

abbrev pub sched_idle : ℕ
sched_idle = 5

abbrev pub sched_deadline : ℕ
sched_deadline = 6

pub record YieldDemand : Type 0 where
  pub time_slice_ns : ℕ
  pub time_budgets : ℤ

pub record LatencyDemand : Type 0 where
  pub target_lat : ℕ
  pub start_time : ℕ
  pub hist_ncycle : ℕ
  pub used_ncycle : ℕ

-- The member of the union that is set.
pub data UAuxData : Type 0 where
  norm : YieldDemand → UAuxData
  lat : LatencyDemand → UAuxData

pub record LocalContext : Type 0 where
  pub in_critical : ℤ
  pub n_signal_pendings : ℤ
  pub policy : ℕ
  pub aux : UAuxData
  pub cycles_num : ℕ
  pub avg_timecost_ns : ℕ

-- `localcontext_alloc`: every byte is zero, read through the member `norm` of the union.
abbrev pub localcontext_alloc : LocalContext
localcontext_alloc = record {
  in_critical = pos 0;
  n_signal_pendings = pos 0;
  policy = policy_number yielding;
  aux = norm (record { time_slice_ns = 0; time_budgets = pos 0 });
  cycles_num = 0;
  avg_timecost_ns = 0;
}

-- The constants of the classes are the values of the enums.
policy_agrees : (p : RunPolicy) → run_policy_constant p ≡ policy_number p
policy_agrees yielding = refl
policy_agrees predetermined = refl
policy_agrees immediate = refl
policy_agrees latency_oriented = refl

degree_agrees : (d : SystemBusyDegree) → busy_degree_constant d ≡ degree_number d
degree_agrees system_idle = refl
degree_agrees system_moderate = refl
degree_agrees system_high = refl
