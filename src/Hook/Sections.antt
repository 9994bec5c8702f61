-- ===== src/Hook/Sections.antt =====
-- src/robflex_api.c: the functions that change a thread's context in a critical section, which puts off the
-- ticks of src/dym_hook.c, and handle a tick at the end if any came.
pub mod Deferred
pub mod Chain
use pmu_roboflex.Prelude.{
  ℕ, zero, suc, ◌+◌, ◌%◌, ◌≡◌, refl, Bool, true, false, Option, none, some, if◌then◌else◌, ◌==◌,
}
use pmu_roboflex.Prelude.Int.{ℤ, pos, negsuc, ◌-ℤ◌, ◌*ℤ◌, quot_int}
use pmu_roboflex.Prelude.Word64.{add64, to_ll}
use pmu_roboflex.Contexts.Types.{
  RunPolicy, yielding, predetermined, immediate, latency_oriented, by_handler, UAuxData,
  LocalContext, set_time_budgets,
}
use pmu_roboflex.Hook.{Machine, Thread, put_aux, handle_tick, instruction_interrupt_handler}

pub record ChainContext : Type 0 where
  pub total_latency : ℕ
  pub used_latency : ℕ
  pub local_target_latency : ℕ
  pub local_used_latency : ℕ

-- A call of one of the functions.
pub data Section : Type 0 where
  set_cycles_for_tick : ℕ → Section
  clear_time_budget : Section
  set_time_for_throttle : ℕ → Section
  set_as_latency_flick : ℕ → ℕ → Section
  add_runcycle : ℕ → Section
  switch_context : LocalContext → Section
  chained_from_latency : ChainContext → ℤ → Section

-- `loc_ctx.policy == YIELDING || loc_ctx.policy == PREDETERMINED`.
unfoldable pub is_throttled : RunPolicy → Bool
is_throttled yielding = true
is_throttled predetermined = true
is_throttled immediate = false
is_throttled latency_oriented = false
is_throttled by_handler = false

abbrev pub with_aux : (UAuxData → UAuxData) → Thread → Thread
with_aux f t = record t { loc_ctx = put_aux (f t.loc_ctx.aux) t.loc_ctx }

-- A change that is for the throttled policies only.
unfoldable pub throttled_only : (UAuxData → UAuxData) → Thread → ℤ × Thread
unfolding is_throttled
throttled_only f t = if is_throttled t.loc_ctx.policy then (pos 0, with_aux f t) else (negsuc 0, t)

abbrev pub latency_context : ℕ → ℕ → ℕ → LocalContext → LocalContext
latency_context lat_ns base_ns now ctx = record ctx {
  policy = latency_oriented;
  aux = record ctx.aux {
    target_lat = lat_ns;
    start_time = now;
    hist_ncycle = base_ns;
    total_latency = 0;
    used_latency = 0;
  };
}

-- What is left of the last stage's latency, times a percentage.
abbrev pub bias_of : ChainContext → ℤ → ℤ
bias_of chain feedback_percent =
    quot_int
      ((to_ll chain.local_target_latency -ℤ to_ll chain.local_used_latency) *ℤ feedback_percent) 100

abbrev pub chained_context : ChainContext → ℤ → ℕ → LocalContext → LocalContext
chained_context chain feedback_percent now ctx =
    put_aux
      (record ctx.aux {
        start_time = now;
        total_latency = chain.total_latency;
        used_latency = chain.used_latency;
        lat_bias = bias_of chain feedback_percent;
      })
      ctx

abbrev pub no_budget : UAuxData → UAuxData
no_budget aux = set_time_budgets (pos 0) aux

abbrev pub new_slice : ℕ → UAuxData → UAuxData
new_slice time_ns aux = set_time_budgets (pos 0) (record aux { target_lat = time_ns })

-- The statements between the two stores to `in_critical`, with what the function returns.
unfoldable pub body : Machine → Section → Thread → ℤ × Thread
unfolding throttled_only
body mc (set_cycles_for_tick cycles) t = throttled_only no_budget t
body mc clear_time_budget t = (pos 0, with_aux no_budget t)
body mc (set_time_for_throttle time_ns) t = throttled_only (new_slice time_ns) t
body mc (set_as_latency_flick lat_ns base_ns) t = (
  pos 0,
  record t {
    loc_ctx = latency_context lat_ns base_ns (mc.clock t.readings) t.loc_ctx;
    readings = t.readings + 1;
  },
)
body mc (add_runcycle runcycle) t =
    (pos 0, with_aux (λ aux. record aux { used_ncycle = add64 aux.used_ncycle runcycle }) t)
body mc (switch_context new_context) t = (pos 0, record t { loc_ctx = new_context })
body mc (chained_from_latency chain feedback_percent) t = (
  pos 0,
  record t {
    loc_ctx = chained_context chain feedback_percent (mc.clock t.readings) t.loc_ctx;
    readings = t.readings + 1;
  },
)

-- `while (atomic_exchange(&n_signal_pendings, 0)) handle_tick();` with fuel.
unfoldable pub drain : ℕ → Machine → Thread → Option Thread
unfolding handle_tick
drain zero mc t = none
drain (suc fuel) mc t =
    let rest = drain fuel mc (handle_tick mc (record t { n_signal_pendings = 0 })) in
    if t.n_signal_pendings == 0 then some t else rest

-- Signals that arrive one after the other between two statements.
unfoldable pub signals : ℕ → Machine → Thread → Thread
unfolding instruction_interrupt_handler
signals zero mc t = t
signals (suc n) mc t = signals n mc (instruction_interrupt_handler mc t)

abbrev pub entered : Thread → Thread
entered t = record t { in_critical = true }

abbrev pub left : Thread → Thread
left t = record t { in_critical = false }

abbrev pub returns : {R : Type 0} → R → Option Thread → Option (R × Thread)
returns ret none = none
returns ret (some t) = some (ret, t)

-- The end of a call: signals behind the body, the store of 0, and the loop.
unfoldable pub finish : {R : Type 0} → ℕ → Machine → ℕ → R × Thread → Option (R × Thread)
finish fuel mc late r = returns r.0 (drain fuel mc (left (signals late mc r.1)))

-- A whole call, with signals in front of its body and behind it, in the critical section.
unfoldable pub run_section : ℕ → Machine → Section → ℕ → ℕ → Thread → Option (ℤ × Thread)
run_section fuel mc section early late t =
    finish fuel mc late (body mc section (signals early mc (entered t)))
