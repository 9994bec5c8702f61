-- ===== src/Hook/Sections/Chain/Paced.antt =====
-- What the ticks of src/dym_hook.c leave of a context under LATENCY_ORIENTED.

use pmu_roboflex.Prelude.{
  ℕ, zero, suc, ◌+◌, ◌≤◌, ◌<◌, ◌≡◌, refl, Bool, false, if◌then◌else◌, ◌==◌, arith, Bool-cases, inl,
  inr, ap, ◌∙◌, sym, subst,
}
use pmu_roboflex.Contexts.Types.{
  RunPolicy, yielding, predetermined, immediate, latency_oriented, by_handler, UAuxData,
  LocalContext,
}
use pmu_roboflex.Hook.{
  Machine, Thread, SystemBusyDegree, Chosen, own, entry, choose, counted, context_of, handle_policy,
  handle_tick_vsleep, handle_tick_yielding, handle_tick_latency_oriented, store_aux, tick_on,
  handle_tick, instruction_interrupt_handler,
}
use pmu_roboflex.Hook.Ticks.{handle_policy-IsSame, handle_tick-IsTick}
use pmu_roboflex.Hook.Sections.{signals}
use pmu_roboflex.Hook.Sections.Deferred.{caught_up}

-- A context under LATENCY_ORIENTED: its latency, and what the chain has given it.
pub record IsPaced (target start total used : ℕ) (c : LocalContext) : Type 0 where
  pub policy : c.policy ≡ latency_oriented
  pub has_target : c.aux.target_lat ≡ target
  pub has_start : c.aux.start_time ≡ start
  pub has_total : c.aux.total_latency ≡ total
  pub has_used : c.aux.used_latency ≡ used

-- A thread with such a context outside of a critical section, behind a reading of the clock.
pub record IsAtWork (first target start total used : ℕ) (t : Thread) : Type 0 where
  pub paced : IsPaced target start total used t.loc_ctx
  pub in_critical : t.in_critical ≡ false
  pub pendings : t.n_signal_pendings ≡ 0
  pub later : first < t.readings

handle_policy-readings :
    (mc : Machine) (busy : SystemBusyDegree) (p : RunPolicy) (aux : UAuxData) (t : Thread)
    → t.readings ≤ (handle_policy mc busy p aux t).1.readings
unfolding handle_policy handle_tick_vsleep handle_tick_yielding handle_tick_latency_oriented
handle_policy-readings mc busy yielding aux t = omega arith
handle_policy-readings mc busy predetermined aux t = omega arith
handle_policy-readings mc busy latency_oriented aux t = omega arith
handle_policy-readings mc busy immediate aux t = omega arith
handle_policy-readings mc busy by_handler aux t = omega arith

store_aux-readings :
    (c : Chosen) (aux : UAuxData) (t : Thread) → (store_aux c aux t).readings ≡ t.readings
unfolding store_aux
store_aux-readings own aux t = refl
store_aux-readings (entry i) aux t = refl

handle_tick-readings : (mc : Machine) (t : Thread) → t.readings ≤ (handle_tick mc t).readings
unfolding handle_tick tick_on counted
handle_tick-readings mc t =
    let c = choose (mc.is_set t.interrupt_count) t in
    let ctx = context_of c (counted t) in
    rw store_aux-readings
      (handle_policy-readings mc (mc.busy_degree t.interrupt_count) ctx.policy ctx.aux (counted t))

module _ (mc : Machine) (first target start total used : ℕ) where
  abbrev Paced : LocalContext → Type 0
  Paced c = IsPaced target start total used c

  abbrev AtWork : Thread → Type 0
  AtWork t = IsAtWork first target start total used t

  own-IsPaced :
      (busy : SystemBusyDegree) (t : Thread)
      → Paced t.loc_ctx
      → Paced (tick_on mc busy own t).loc_ctx
  unfolding tick_on context_of store_aux handle_policy handle_tick_latency_oriented
  own-IsPaced busy t h = rw h.policy (record {
    policy = refl;
    has_target = h.has_target;
    has_start = h.has_start;
    has_total = h.has_total;
    has_used = h.has_used;
  })

  entry-loc_ctx :
      (busy : SystemBusyDegree) (i : ℕ) (t : Thread)
      → (tick_on mc busy (entry i) t).loc_ctx ≡ t.loc_ctx
  unfolding tick_on store_aux
  entry-loc_ctx busy i t =
      let ctx = context_of (entry i) t in
      (handle_policy-IsSame mc busy ctx.policy ctx.aux t).loc_ctx

  tick_on-IsPaced :
      (busy : SystemBusyDegree) (c : Chosen) (t : Thread)
      → Paced t.loc_ctx
      → Paced (tick_on mc busy c t).loc_ctx
  tick_on-IsPaced busy own t h = own-IsPaced busy t h
  tick_on-IsPaced busy (entry i) t h = subst Paced (sym (entry-loc_ctx busy i t)) h

  handle_tick-IsPaced : (t : Thread) → Paced t.loc_ctx → Paced (handle_tick mc t).loc_ctx
  unfolding handle_tick counted
  handle_tick-IsPaced t h = tick_on-IsPaced _ _ (counted t) h

  handle_tick-IsAtWork : (t : Thread) → AtWork t → AtWork (handle_tick mc t)
  handle_tick-IsAtWork t h =
      let tick = handle_tick-IsTick mc t in
      record {
        paced = handle_tick-IsPaced t h.paced;
        in_critical = tick.in_critical ∙ h.in_critical;
        pendings = tick.pendings ∙ h.pendings;
        later = omega (arith, h.later, handle_tick-readings mc t);
      }

  pub caught_up-IsAtWork : (n : ℕ) (t : Thread) → AtWork t → AtWork (caught_up mc n t)
  caught_up-IsAtWork n t h = elim (Bool-cases (n == 0)) [
    | inl e ↦ rw e h
    | inr e ↦ rw e (handle_tick-IsAtWork t h)
  ]

  -- Outside of a critical section a signal is a tick.
  handler-tick : (t : Thread) → AtWork t → instruction_interrupt_handler mc t ≡ handle_tick mc t
  unfolding instruction_interrupt_handler
  handler-tick t h =
      ap
        (λ (b : Bool).
          if b then record t { n_signal_pendings = t.n_signal_pendings + 1 } else handle_tick mc t)
        h.in_critical

  pub signals-IsAtWork : (n : ℕ) (t : Thread) → AtWork t → AtWork (signals n mc t)
  unfolding signals
  signals-IsAtWork zero t h = h
  signals-IsAtWork (suc n) t h =
      signals-IsAtWork n (instruction_interrupt_handler mc t)
        (subst AtWork (sym (handler-tick t h)) (handle_tick-IsAtWork t h))
