-- ===== src/Hook.antt =====
-- src/dym_hook.c: the tick that a performance counter's signal brings to a thread. The clock, the answers
-- of robflex_test_event, the busy degree and the average in floats are parameters; `now` and `diff` are
-- locals here, since each handler sets them before it reads them.
pub mod Highest
pub mod Budgets
pub mod Ticks
pub mod Sections
pub mod Session
use pmu_roboflex.Prelude.{
  ℕ, zero, suc, ◌+◌, ◌-◌, ◌*◌, ◌/◌, ◌%◌, ◌≡◌, refl, Bool, true, false, not, ◌&&◌, ◌||◌, Option,
  none, some, List, [], ◌∷◌, ◌++◌, if◌then◌else◌, ltb, ◌==◌,
}
use pmu_roboflex.Prelude.Int.{
  ℤ, pos, negsuc, pos_part, neg_part, ltb_int, ◌+ℤ◌, ◌-ℤ◌, min_int, max_int,
}
use pmu_roboflex.Prelude.Word64.{u64_mod, sub64, add64, to_u64, to_ll}
use pmu_roboflex.Contexts.{Entry, Table, change, ctx_at}
use pmu_roboflex.Contexts.Attach.{EventMap}
use pmu_roboflex.Contexts.Types.{
  RunPolicy, yielding, predetermined, immediate, latency_oriented, by_handler, UAuxData,
  LocalContext, time_slice_ns, time_budgets, set_time_budgets,
}

pub data SystemBusyDegree : Type 0 where
  system_idle system_moderate system_high : SystemBusyDegree

-- The calls that a tick makes to give the processor away.
pub data Wait : Type 0 where
  futex_wait : ℕ → Wait
  sched_yield : Wait

pub record Machine : Type 0 where
  -- the n-th reading of the clock, in nanoseconds
  pub clock : ℕ → ℕ
  -- what robflex_test_event answers to an index in the n-th tick
  pub is_set : ℕ → ℤ → Bool
  -- what robflex_system_busy_degree answers in the n-th tick
  pub busy_degree : ℕ → SystemBusyDegree
  -- `avg_timecost_ns * 0.9 + diff * 0.1` in floats
  pub smooth : ℕ → ℕ → ℕ
  -- `hist_ncycle * 0.5 + used_ncycle * 0.5` in floats
  pub blend : ℕ → ℕ → ℕ
  -- get_instr_slice
  pub instr_slice : ℕ
  -- `g_shmem_data != NULL`
  pub shmem_mapped : Bool

-- The state of a thread.
pub record Thread : Type 0 where
  pub loc_ctx : LocalContext
  pub event_map : EventMap
  pub in_critical : Bool
  pub n_signal_pendings : ℕ
  pub interrupt_count : ℕ
  pub past : ℕ
  pub avg_timecost_ns : ℕ
  pub sleeped_time : ℕ
  -- the readings of the clock so far, and the waits
  pub readings : ℕ
  pub waits : List Wait

-- The context that a tick uses: the thread's own, or that of an entry of the table.
pub data Chosen : Type 0 where
  own : Chosen
  entry : ℕ → Chosen

-- An entry that counts for the tick.
abbrev pub is_active : (ℤ → Bool) → Entry LocalContext → Bool
is_active is_set e = e.in_use && is_set e.event_idx

-- The loop over the entries, from index i, with the highest level so far and its context.
unfoldable pub highest : (ℤ → Bool) → ℕ → List (Entry LocalContext) → ℤ × Chosen → ℤ × Chosen
highest is_set i [] best = best
highest is_set i (e ∷ es) best =
    highest is_set (i + 1) es
      (if is_active is_set e && ltb_int best.0 e.ctx.level then (e.ctx.level, entry i) else best)

unfoldable pub choose : (ℤ → Bool) → Thread → Chosen
unfolding highest
choose is_set t = (highest is_set 0 t.event_map.entries (t.loc_ctx.level, own)).1

-- `min((long long)target * 5, budgets)`, then `max(-(long long)target * 5, budgets)`.
abbrev pub five_slices : ℕ → ℤ
five_slices target = pos (target * 5)

abbrev pub minus_five_slices : ℕ → ℤ
minus_five_slices target = pos 0 -ℤ pos (target * 5)

unfoldable pub clamp : ℕ → ℤ → ℤ
clamp target budgets = max_int (minus_five_slices target) (min_int (five_slices target) budgets)

-- What a tick leaves: the context that it used, and the thread.
abbrev pub Handled : Type 0
Handled = UAuxData × Thread

unfoldable pub futex_wait_if : Bool → ℕ → List Wait → List Wait
futex_wait_if b ns waits = if b then waits ++ futex_wait ns ∷ [] else waits

unfoldable pub handle_tick_vsleep : Machine → UAuxData → Thread → Handled
unfolding clamp futex_wait_if
handle_tick_vsleep mc aux t =
    let target = time_slice_ns aux in
    let now = mc.clock t.readings in
    let diff = sub64 now t.past in
    let budgets = time_budgets aux +ℤ (to_ll target -ℤ to_ll diff) in
    let sleep_ns = if ltb (pos_part budgets) target then pos_part budgets else target in
    let past = mc.clock (t.readings + 1) in
    let yield_time = sub64 past now in
    (
      set_time_budgets (clamp target (budgets -ℤ to_ll yield_time)) aux,
      record t {
        past = past;
        avg_timecost_ns = mc.smooth t.avg_timecost_ns diff;
        sleeped_time = add64 t.sleeped_time yield_time;
        readings = t.readings + 2;
        waits = futex_wait_if (ltb_int (pos 0) budgets && mc.shmem_mapped) sleep_ns t.waits;
      },
    )

-- `max(0, budgets + (long long)avg - target)`: the sum is unsigned, and so is the comparison with 0.
unfoldable pub idle_budgets : ℤ → ℕ → ℕ → ℤ
idle_budgets budgets avg target =
    let sum = sub64 (to_u64 (budgets +ℤ to_ll avg)) target in to_ll (if ltb sum 0 then 0 else sum)

-- What a thread with a positive budget does in a busy system, and in an idle one.
unfoldable pub yield_budgets : SystemBusyDegree → ℤ → ℕ → ℕ → ℤ
unfolding idle_budgets
yield_budgets system_idle budgets avg target = idle_budgets budgets avg target
yield_budgets system_moderate budgets avg target = budgets
yield_budgets system_high budgets avg target = budgets

unfoldable pub yield_waits : SystemBusyDegree → List Wait → List Wait
yield_waits system_idle waits = waits
yield_waits system_moderate waits = waits ++ sched_yield ∷ []
yield_waits system_high waits = waits ++ sched_yield ∷ []

unfoldable pub handle_tick_yielding : Machine → SystemBusyDegree → UAuxData → Thread → Handled
unfolding clamp yield_budgets yield_waits
handle_tick_yielding mc busy aux t =
    let target = time_slice_ns aux in
    let now = mc.clock t.readings in
    let diff = sub64 now t.past in
    let budgets = time_budgets aux +ℤ (to_ll target -ℤ to_ll diff) in
    let rich = ltb_int (pos 0) budgets in
    let left = if rich then yield_budgets busy budgets t.avg_timecost_ns target else budgets in
    let past = mc.clock (t.readings + 1) in
    let yield_time = sub64 past now in
    (
      set_time_budgets (clamp target (left -ℤ to_ll yield_time)) aux,
      record t {
        past = past;
        avg_timecost_ns = mc.smooth t.avg_timecost_ns diff;
        readings = t.readings + 2;
        waits = if rich then yield_waits busy t.waits else t.waits;
      },
    )

-- The latency that is left to meet, with the bias.
unfoldable pub biased_latency : UAuxData → ℕ
biased_latency ld =
    if ltb (to_u64 (pos 0 -ℤ ld.lat_bias)) ld.target_lat
    then add64 ld.target_lat (to_u64 ld.lat_bias)
    else 0

-- `rest_time * cycle_slice / rest_ncycle - 1000000`, in uint64_t.
unfoldable pub period_assume : ℤ → ℕ → ℤ → ℤ
period_assume rest_time cycle_slice rest_ncycle =
    to_ll (sub64 (to_u64 rest_time * cycle_slice % u64_mod / to_u64 rest_ncycle) 1000000)

unfoldable pub latency_wait : Machine → UAuxData → ℕ → ℕ → List Wait → List Wait
unfolding biased_latency period_assume futex_wait_if
latency_wait mc ld now past waits =
    let rest_ncycle =
      to_ll (add64 (to_u64 (to_ll ld.hist_ncycle -ℤ to_ll ld.used_ncycle)) mc.instr_slice) in
    let rest_time = to_ll (biased_latency ld) -ℤ (to_ll now -ℤ to_ll ld.start_time) in
    let sleep_ns = period_assume rest_time mc.instr_slice rest_ncycle -ℤ to_ll (sub64 now past) in
    futex_wait_if (ltb_int (pos 0) rest_ncycle && ltb_int (pos 1000000) sleep_ns)
      (pos_part sleep_ns) waits

-- The clock is read three times.
unfoldable pub handle_tick_latency_oriented : Machine → UAuxData → Thread → Handled
unfolding latency_wait
handle_tick_latency_oriented mc ld t = (
  record ld { used_ncycle = add64 ld.used_ncycle mc.instr_slice },
  record t {
    past = mc.clock (t.readings + 2);
    readings = t.readings + 3;
    waits = latency_wait mc ld (mc.clock (t.readings + 1)) t.past t.waits;
  },
)

-- The switch: PREDETERMINED is handled by handle_tick_yielding.
unfoldable pub handle_policy : Machine → SystemBusyDegree → RunPolicy → UAuxData → Thread → Handled
unfolding handle_tick_yielding handle_tick_vsleep handle_tick_latency_oriented
handle_policy mc busy predetermined aux t = handle_tick_yielding mc busy aux t
handle_policy mc busy yielding aux t = handle_tick_vsleep mc aux t
handle_policy mc busy latency_oriented aux t = handle_tick_latency_oriented mc aux t
handle_policy mc busy immediate aux t = (aux, t)
handle_policy mc busy by_handler aux t = (aux, t)

-- The context behind the pointer, and a change of its `aux`.
abbrev pub or_own : LocalContext → Option LocalContext → LocalContext
or_own loc_ctx none = loc_ctx
or_own loc_ctx (some ctx) = ctx

unfoldable pub context_of : Chosen → Thread → LocalContext
unfolding ctx_at
context_of own t = t.loc_ctx
context_of (entry i) t = or_own t.loc_ctx (ctx_at i t.event_map.entries)

abbrev pub put_aux : UAuxData → LocalContext → LocalContext
put_aux aux ctx = record ctx { aux = aux }

unfoldable pub store_aux : Chosen → UAuxData → Thread → Thread
unfolding change
store_aux own aux t = record t { loc_ctx = put_aux aux t.loc_ctx }
store_aux (entry i) aux t = record t {
  event_map = record t.event_map {
    entries = change (λ e. record e { ctx = put_aux aux e.ctx }) i t.event_map.entries;
  };
}

unfoldable pub counted : Thread → Thread
counted t = record t { interrupt_count = t.interrupt_count + 1 }

unfoldable pub tick_on : Machine → SystemBusyDegree → Chosen → Thread → Thread
unfolding context_of store_aux handle_policy
tick_on mc busy chosen t =
    let ctx = context_of chosen t in
    let (aux, t') = handle_policy mc busy ctx.policy ctx.aux t in store_aux chosen aux t'

unfoldable pub handle_tick : Machine → Thread → Thread
unfolding choose counted tick_on
handle_tick mc t =
    tick_on mc (mc.busy_degree t.interrupt_count) (choose (mc.is_set t.interrupt_count) t)
      (counted t)

-- The handler of the counter's signal: a tick in a critical section is for later.
unfoldable pub instruction_interrupt_handler : Machine → Thread → Thread
unfolding handle_tick
instruction_interrupt_handler mc t =
    let ticked = handle_tick mc t in
    if t.in_critical then record t { n_signal_pendings = t.n_signal_pendings + 1 } else ticked
