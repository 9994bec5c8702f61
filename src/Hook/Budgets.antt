-- ===== src/Hook/Budgets.antt =====
-- The budget of a throttled thread over a tick of src/dym_hook.c.
use pmu_roboflex.Prelude.{
  ℕ, ◌+◌, ◌-◌, ◌*◌, ◌≤◌, ◌<◌, ◌≡◌, refl, Bool, true, false, List, [], ◌∷◌, ◌++◌, if◌then◌else◌,
  arith, ap, ◌∙◌,
}
use pmu_roboflex.Prelude.Int.{ℤ, ◌≤ℤ◌, pos, negsuc, pos_part, neg_part, ◌+ℤ◌, ◌-ℤ◌}
use pmu_roboflex.Prelude.Word64.{u64_mod, ll_bound, sub64, to_ll, to_ll-to_u64}
use pmu_roboflex.Contexts.Types.{
  RunPolicy, yielding, predetermined, immediate, latency_oriented, by_handler, UAuxData,
  time_slice_ns, time_budgets, set_time_budgets,
}
use pmu_roboflex.Hook.{
  Machine, Thread, SystemBusyDegree, system_idle, system_moderate, system_high, Wait, futex_wait,
  sched_yield, clamp, five_slices, minus_five_slices, futex_wait_if, yield_budgets, yield_waits,
  handle_tick_vsleep, handle_tick_yielding, handle_policy,
}

clamp_bounds : (n : ℕ) (b : ℤ) → (minus_five_slices n ≤ℤ clamp n b) × (clamp n b ≤ℤ five_slices n)
unfolding clamp
clamp_bounds n (pos b) = ground arith
clamp_bounds n (negsuc b) = ground arith

parts_within :
    (n : ℕ) (i : ℤ)
    → minus_five_slices n ≤ℤ i
    → i ≤ℤ five_slices n
    → (pos_part i ≤ n * 5) × (neg_part i ≤ n * 5)
parts_within n (pos i) h k = ground arith
parts_within n (negsuc i) h k = ground arith

-- A clamped budget survives its stay in memory.
time_budgets-clamp :
    (n : ℕ) (b : ℤ) (aux : UAuxData)
    → n * 5 < ll_bound
    → time_budgets (set_time_budgets (clamp n b) aux) ≡ clamp n b
time_budgets-clamp n b aux h =
    let (low, high) = clamp_bounds n b in
    let (p, q) = parts_within n (clamp n b) low high in
    to_ll-to_u64 (clamp n b) (omega arith) (omega arith)

sub64-le : (a b : ℕ) → b ≤ a → a < u64_mod → sub64 a b ≡ a - b
sub64-le a b h k = omega arith

to_ll_small : (n : ℕ) → n < ll_bound → to_ll n ≡ pos n
to_ll_small n h = ground arith

budget_sum : (b : ℤ) (s d y : ℕ) → (b +ℤ (pos s -ℤ pos d)) -ℤ pos y ≡ b +ℤ (pos s -ℤ pos (d + y))
budget_sum (pos b) s d y = ground arith
budget_sum (negsuc b) s d y = ground arith

-- The two differences of the clock in a tick add up.
module _ (past now after slice : ℕ) (b : ℤ) (h : past ≤ now) (k : now ≤ after)
    (l : after < ll_bound) (small : slice < ll_bound) where
  elapsed_sum :
      (b +ℤ (to_ll slice -ℤ to_ll (sub64 now past))) -ℤ to_ll (sub64 after now)
      ≡ b +ℤ (pos slice -ℤ pos (after - past))
  elapsed_sum =
      let total : (now - past) + (after - now) ≡ after - past = omega arith in
      rw
        (
          sub64-le now past h (omega arith),
          sub64-le after now k (omega arith),
          to_ll_small slice small,
          to_ll_small (now - past) (omega arith),
          to_ll_small (after - now) (omega arith),
          budget_sum b slice (now - past) (after - now),
          total,
        )
        refl

-- A clock that does not go back, and does not reach 2^63 ns, over the two readings of a tick.
pub record RunsOn (mc : Machine) (t : Thread) : Type 0 where
  pub before : t.past ≤ mc.clock t.readings
  pub during : mc.clock t.readings ≤ mc.clock (t.readings + 1)
  pub small : mc.clock (t.readings + 1) < ll_bound

-- The time from the end of one tick to the end of the next.
abbrev pub elapsed : Machine → Thread → ℕ
elapsed mc t = mc.clock (t.readings + 1) - t.past

-- The policies whose ticks keep a budget; PREDETERMINED does so in a busy system.
pub data Throttles : RunPolicy → SystemBusyDegree → Type 0 where
  sleeping : (busy : SystemBusyDegree) → Throttles yielding busy
  moderate : Throttles predetermined system_moderate
  high : Throttles predetermined system_high

same_budgets : (b : Bool) (budgets : ℤ) → (if b then budgets else budgets) ≡ budgets
same_budgets true budgets = refl
same_budgets false budgets = refl

-- If five time slices and the clock stay below 2^63 ns and the clock does not go back, a tick of a thread
-- under YIELDING, or under PREDETERMINED in a system that is not idle, adds a time slice to the budget
-- and takes away the time since the end of the last tick, what it waited included; the sum is cut to five
-- slices either way.
pub handle_policy-accounts :
    (mc : Machine) (busy : SystemBusyDegree) (p : RunPolicy) (aux : UAuxData) (t : Thread)
    → Throttles p busy
    → RunsOn mc t
    → time_slice_ns aux * 5 < ll_bound
    → time_budgets (handle_policy mc busy p aux t).0
      ≡ clamp
          (time_slice_ns aux)
          (time_budgets aux +ℤ (pos (time_slice_ns aux) -ℤ pos (elapsed mc t)))
unfolding handle_policy handle_tick_vsleep handle_tick_yielding yield_budgets
handle_policy-accounts mc busy yielding aux t (sleeping _) r h =
    time_budgets-clamp (time_slice_ns aux) _ aux h
    ∙ ap (clamp (time_slice_ns aux)) (
        elapsed_sum t.past (mc.clock t.readings) (mc.clock (t.readings + 1)) (time_slice_ns aux)
          (time_budgets aux) r.before r.during r.small (omega arith))
handle_policy-accounts mc system_moderate predetermined aux t moderate r h =
    time_budgets-clamp (time_slice_ns aux) _ aux h
    ∙ ap (clamp (time_slice_ns aux)) (
        rw same_budgets (
          elapsed_sum t.past (mc.clock t.readings) (mc.clock (t.readings + 1)) (time_slice_ns aux)
            (time_budgets aux) r.before r.during r.small (omega arith)))
handle_policy-accounts mc system_high predetermined aux t high r h =
    time_budgets-clamp (time_slice_ns aux) _ aux h
    ∙ ap (clamp (time_slice_ns aux)) (
        rw same_budgets (
          elapsed_sum t.past (mc.clock t.readings) (mc.clock (t.readings + 1)) (time_slice_ns aux)
            (time_budgets aux) r.before r.during r.small (omega arith)))
handle_policy-accounts mc system_idle predetermined aux t c r h = elim c [ ]
handle_policy-accounts mc busy immediate aux t c r h = elim c [ ]
handle_policy-accounts mc busy latency_oriented aux t c r h = elim c [ ]
handle_policy-accounts mc busy by_handler aux t c r h = elim c [ ]

-- What a tick may add to the waits of a thread with a slice of n nanoseconds.
pub data WaitsAtMost (n : ℕ) (before : List Wait) : List Wait → Type 0 where
  no_wait : WaitsAtMost n before before
  futex : (ns : ℕ) → ns ≤ n → WaitsAtMost n before (before ++ futex_wait ns ∷ [])
  yields : WaitsAtMost n before (before ++ sched_yield ∷ [])

futex-WaitsAtMost :
    (n ns : ℕ) (b : Bool) (before : List Wait)
    → ns ≤ n
    → WaitsAtMost n before (futex_wait_if b ns before)
unfolding futex_wait_if
futex-WaitsAtMost n ns true before h = futex ns h
futex-WaitsAtMost n ns false before h = no_wait

yields-WaitsAtMost :
    (n : ℕ) (busy : SystemBusyDegree) (b : Bool) (before : List Wait)
    → WaitsAtMost n before (if b then yield_waits busy before else before)
unfolding yield_waits
yields-WaitsAtMost n busy false before = no_wait
yields-WaitsAtMost n system_idle true before = no_wait
yields-WaitsAtMost n system_moderate true before = yields
yields-WaitsAtMost n system_high true before = yields

-- The time slice is as before, the budget within five slices, and the waits short.
pub record IsThrottled (aux aux' : UAuxData) (before after : List Wait) : Type 0 where
  pub same_slice : time_slice_ns aux' ≡ time_slice_ns aux
  pub low : minus_five_slices (time_slice_ns aux) ≤ℤ time_budgets aux'
  pub high : time_budgets aux' ≤ℤ five_slices (time_slice_ns aux)
  pub short : WaitsAtMost (time_slice_ns aux) before after

clamp-IsThrottled :
    (aux : UAuxData) (b : ℤ) (before after : List Wait)
    → time_slice_ns aux * 5 < ll_bound
    → WaitsAtMost (time_slice_ns aux) before after
    → IsThrottled aux (set_time_budgets (clamp (time_slice_ns aux) b) aux) before after
clamp-IsThrottled aux b before after h w = record {
  same_slice = refl;
  low = rw (time_budgets-clamp (time_slice_ns aux) b aux h) (clamp_bounds (time_slice_ns aux) b).0;
  high = rw (time_budgets-clamp (time_slice_ns aux) b aux h) (clamp_bounds (time_slice_ns aux) b).1;
  short = w;
}

pub vsleep-IsThrottled :
    (mc : Machine) (aux : UAuxData) (t : Thread)
    → time_slice_ns aux * 5 < ll_bound
    → IsThrottled aux (handle_tick_vsleep mc aux t).0 t.waits (handle_tick_vsleep mc aux t).1.waits
unfolding handle_tick_vsleep
vsleep-IsThrottled mc aux t h =
    clamp-IsThrottled aux _ _ _ h (futex-WaitsAtMost (time_slice_ns aux) _ _ t.waits (ground arith))

pub yielding-IsThrottled :
    (mc : Machine) (busy : SystemBusyDegree) (aux : UAuxData) (t : Thread)
    → time_slice_ns aux * 5 < ll_bound
    → IsThrottled aux
        (handle_tick_yielding mc busy aux t).0
        t.waits
        (handle_tick_yielding mc busy aux t).1.waits
unfolding handle_tick_yielding
yielding-IsThrottled mc busy aux t h =
    clamp-IsThrottled aux _ _ _ h (yields-WaitsAtMost (time_slice_ns aux) busy _ t.waits)
