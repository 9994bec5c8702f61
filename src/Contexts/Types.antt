-- ===== src/Contexts/Types.antt =====
-- The context of a thread in C: the types of inc/robflex_def.h.
use pmu_roboflex.Prelude.{ℕ}
use pmu_roboflex.Prelude.Int.{ℤ}
use pmu_roboflex.Prelude.Word64.{to_ll, to_u64}

pub data RunPolicy : Type 0 where
  yielding predetermined immediate latency_oriented by_handler : RunPolicy

abbrev pub policy_number : RunPolicy → ℕ
policy_number yielding = 0
policy_number predetermined = 1
policy_number immediate = 2
policy_number latency_oriented = 3
policy_number by_handler = 4

-- `union uAuxData`: the seven words of its longest member, LatencyDemand. The first two are the
-- `time_slice_ns` and the `time_budgets` of its member YieldDemand, and the first four the handler and
-- its saved arguments of HandlerDemand.
pub record UAuxData : Type 0 where
  pub target_lat : ℕ
  pub start_time : ℕ
  pub hist_ncycle : ℕ
  pub used_ncycle : ℕ
  pub lat_bias : ℤ
  pub total_latency : ℕ
  pub used_latency : ℕ

-- The members of `norm`.
abbrev pub time_slice_ns : UAuxData → ℕ
time_slice_ns aux = aux.target_lat

abbrev pub time_budgets : UAuxData → ℤ
time_budgets aux = to_ll aux.start_time

abbrev pub set_time_budgets : ℤ → UAuxData → UAuxData
set_time_budgets budgets aux = record aux { start_time = to_u64 budgets }

pub record LocalContext : Type 0 where
  pub policy : RunPolicy
  pub aux : UAuxData
  pub level : ℤ
  pub cycles_num : ℕ
  pub avg_timecost_ns : ℕ
