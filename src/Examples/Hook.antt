-- ===== src/Examples/Hook.antt =====
-- The ticks and critical sections (src/dym_hook.c, src/robflex_api.c) on a concrete thread.
use pmu_roboflex.Prelude.{
  ℕ, ◌*◌, ◌+◌, ◌<◌, ◌≡◌, ◌≢◌, ◌⊎◌, inl, refl, true, false, some, [], ◌∷◌, All, arith,
}
use pmu_roboflex.Prelude.Int.{ℤ, ◌≤ℤ◌, pos, ltb_int, ◌+ℤ◌, ◌-ℤ◌}
use pmu_roboflex.Prelude.Word64.{ll_bound}
use pmu_roboflex.Contexts.{Entry, ctx_at}
use pmu_roboflex.Contexts.Types.{
  LocalContext, yielding, latency_oriented, UAuxData, time_slice_ns, time_budgets,
}
use pmu_roboflex.Hook.{
  Machine, Thread, system_high, own, entry, choose, highest, clamp, context_of, handle_policy,
  handle_tick,
}
use pmu_roboflex.Hook.Highest.{AtMost, IsTop, choose-highest}
use pmu_roboflex.Hook.Budgets.{sleeping, RunsOn, elapsed, IsThrottled, handle_policy-accounts}
use pmu_roboflex.Hook.Ticks.{chosen_in, handle_tick-IsThrottled}
use pmu_roboflex.Hook.Sections.{
  ChainContext, set_time_for_throttle, chained_from_latency, body, run_section,
}
use pmu_roboflex.Hook.Sections.Deferred.{caught_up, run_section-deferred}
use pmu_roboflex.Hook.Sections.Chain.Stages.{Gives, handed, shot_after, worked, chain-accounts}

-- A clock that goes 400 microseconds from one reading to the next, and the event 3 on.
abbrev machine : Machine
machine = record {
  clock = λ n. 1000000 + n * 400000;
  is_set = λ n i. ltb_int (pos 2) i;
  busy_degree = λ n. system_high;
  smooth = λ average diff. average;
  blend = λ hist used. hist;
  instr_slice = 1000000;
  shmem_mapped = true;
}

-- A slice of one millisecond and half of one as a budget.
abbrev aux : UAuxData
aux = record {
  target_lat = 1000000;
  start_time = 500000;
  hist_ncycle = 0;
  used_ncycle = 0;
  lat_bias = pos 0;
  total_latency = 0;
  used_latency = 0;
}

abbrev context : ℤ → LocalContext
context level = record {
  policy = yielding;
  aux = aux;
  level = level;
  cycles_num = 0;
  avg_timecost_ns = 0;
}

abbrev in_use : ℤ → ℤ → Entry LocalContext
in_use idx level = record { event_idx = idx; in_use = true; ctx = context level }

abbrev pub thread : Thread
thread = record {
  loc_ctx = context (pos 0);
  event_map = record {
    count = pos 3;
    entries = in_use (pos 1) (pos 9) ∷ in_use (pos 3) (pos 2) ∷ in_use (pos 4) (pos 2) ∷ [];
  };
  in_critical = false;
  n_signal_pendings = 0;
  interrupt_count = 0;
  past = 900000;
  avg_timecost_ns = 0;
  sleeped_time = 0;
  readings = 0;
  waits = [];
}

-- The event of the highest level is off, so the tick takes the first entry of the next level.
chosen_second : choose (machine.is_set 0) thread ≡ entry 1
unfolding choose highest
chosen_second = refl

choose-highest_example :
    (level : ℤ) × (pos 0 ≤ℤ level)
    × All (AtMost (machine.is_set 0) level) thread.event_map.entries
    × (((choose (machine.is_set 0) thread ≡ own) × (level ≡ pos 0))
        ⊎ ((k : ℕ) × (choose (machine.is_set 0) thread ≡ entry k)
            × IsTop (machine.is_set 0) thread.event_map.entries (pos 0) k level))
choose-highest_example = choose-highest (machine.is_set 0) thread

thread-RunsOn : RunsOn machine thread
thread-RunsOn = record { before = omega arith; during = omega arith; small = omega arith }

handle_policy-accounts_example :
    time_budgets (handle_policy machine system_high yielding aux thread).0
    ≡ clamp 1000000 (time_budgets aux +ℤ (pos 1000000 -ℤ pos (elapsed machine thread)))
handle_policy-accounts_example =
    handle_policy-accounts machine system_high yielding aux thread (sleeping system_high)
      thread-RunsOn (omega arith)

yielding_second : (context_of (chosen_in machine thread) thread).policy ≡ yielding
unfolding choose highest context_of ctx_at
yielding_second = refl

slice_second : time_slice_ns (context_of (chosen_in machine thread) thread).aux * 5 < ll_bound
unfolding choose highest context_of ctx_at
slice_second = omega arith

handle_tick-IsThrottled_example :
    IsThrottled
      (context_of (chosen_in machine thread) thread).aux
      (context_of (chosen_in machine thread) (handle_tick machine thread)).aux
      []
      (handle_tick machine thread).waits
    × (chosen_in machine thread ≢ own → (handle_tick machine thread).loc_ctx ≡ context (pos 0))
    × ((j : ℕ)
        → chosen_in machine thread ≢ entry j
        → ctx_at j (handle_tick machine thread).event_map.entries
          ≡ ctx_at j thread.event_map.entries)
handle_tick-IsThrottled_example =
    handle_tick-IsThrottled machine thread (inl yielding_second) slice_second

run_section-deferred_example :
    run_section 2 machine (set_time_for_throttle 2000000) 1 2 thread
    ≡ some (
      (body machine (set_time_for_throttle 2000000) thread).0,
      caught_up machine 3 (body machine (set_time_for_throttle 2000000) thread).1,
    )
run_section-deferred_example =
    run_section-deferred machine (set_time_for_throttle 2000000) 1 2 thread refl refl

-- A thread with a latency of ten milliseconds.
abbrev paced : Thread
paced = record thread {
  loc_ctx = record (context (pos 5)) {
    policy = latency_oriented;
    aux = record aux { target_lat = 10000000 };
  };
}

abbrev chain : ChainContext
chain = record {
  total_latency = 5000000;
  used_latency = 4000000;
  local_target_latency = 5000000;
  local_used_latency = 4000000;
}

chain-accounts_example :
    (0 < (worked machine chain (pos 50) 2 3 paced).readings)
    × Gives
        (shot_after machine 3 1 0
          (run_section 2 machine (chained_from_latency chain (pos 50)) 2 0 paced))
        (handed 10000000 1000000 5000000 4000000
          (1000000 + (worked machine chain (pos 50) 2 3 paced).readings * 400000))
chain-accounts_example = chain-accounts machine chain (pos 50) 2 0 3 1 0 paced refl refl refl
