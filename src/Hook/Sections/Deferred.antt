-- ===== src/Hook/Sections/Deferred.antt =====
-- Ticks in the critical sections of src/robflex_api.c are put off and come as one.
use pmu_roboflex.Prelude.{
  ℕ, zero, suc, ◌+◌, ◌≡◌, refl, Bool, true, false, some, if◌then◌else◌, ◌==◌, arith, Bool-cases,
  inl, inr, ap, ◌∙◌, sym,
}
use pmu_roboflex.Contexts.Types.{UAuxData}
use pmu_roboflex.Hook.{Machine, Thread, handle_tick, instruction_interrupt_handler}
use pmu_roboflex.Hook.Ticks.{handle_tick-IsTick}
use pmu_roboflex.Hook.Sections.{
  Section, set_cycles_for_tick, clear_time_budget, set_time_for_throttle, set_as_latency_flick,
  chained_from_latency, add_runcycle, switch_context, is_throttled, throttled_only, no_budget,
  new_slice, body, drain, signals, entered, left, returns, finish, run_section,
}

-- A thread with a number of ticks put off.
abbrev pub with_pending : Bool → ℕ → Thread → Thread
with_pending b n t = record t { in_critical = b; n_signal_pendings = n }

-- In a critical section a signal is only counted.
signals_counted :
    (k : ℕ) (mc : Machine) (n : ℕ) (t : Thread)
    → signals k mc (with_pending true n t) ≡ with_pending true (n + k) t
unfolding signals
signals_counted zero mc n t = ap (λ (m : ℕ). with_pending true m t) (omega arith)
signals_counted (suc k) mc n t =
    let one : instruction_interrupt_handler mc (with_pending true n t)
        ≡ with_pending true (n + 1) t =
      unfold instruction_interrupt_handler in refl in
    rw one (signals_counted k mc (n + 1) t ∙ ap (λ (m : ℕ). with_pending true m t) (omega arith))

abbrev pub with_pending_of : {R : Type 0} → Bool → ℕ → R × Thread → R × Thread
with_pending_of b n r = (r.0, with_pending b n r.1)

throttled_only_pending :
    (f : UAuxData → UAuxData) (b : Bool) (n : ℕ) (t : Thread)
    → throttled_only f (with_pending b n t) ≡ with_pending_of b n (throttled_only f t)
unfolding throttled_only
throttled_only_pending f b n t = elim (Bool-cases (is_throttled t.loc_ctx.policy)) [
  | inl e ↦ rw e refl
  | inr e ↦ rw e refl
]

-- The body reads and writes neither the flag nor the count.
body_pending :
    (mc : Machine) (s : Section) (b : Bool) (n : ℕ) (t : Thread)
    → body mc s (with_pending b n t) ≡ with_pending_of b n (body mc s t)
unfolding body
body_pending mc (set_cycles_for_tick cycles) b n t = throttled_only_pending no_budget b n t
body_pending mc clear_time_budget b n t = refl
body_pending mc (set_time_for_throttle time_ns) b n t =
    throttled_only_pending (new_slice time_ns) b n t
body_pending mc (set_as_latency_flick lat_ns base_ns) b n t = refl
body_pending mc (add_runcycle runcycle) b n t = refl
body_pending mc (switch_context ctx) b n t = refl
body_pending mc (chained_from_latency chain percent) b n t = refl

drain-zero :
    (fuel : ℕ) (mc : Machine) (t : Thread)
    → t.n_signal_pendings ≡ 0
    → drain (suc fuel) mc t ≡ some t
unfolding drain
drain-zero fuel mc t h = rw (drain, h) refl

drain-more :
    (fuel : ℕ) (mc : Machine) (t : Thread)
    → (t.n_signal_pendings == 0) ≡ false
    → drain (suc fuel) mc t ≡ drain fuel mc (handle_tick mc (record t { n_signal_pendings = 0 }))
unfolding drain
drain-more fuel mc t h = rw (drain, h) refl

-- A tick for all that were put off, if any were.
abbrev pub caught_up : Machine → ℕ → Thread → Thread
caught_up mc n t = if n == 0 then t else handle_tick mc t

-- Two rounds of the loop are enough.
drain-pending :
    (mc : Machine) (n : ℕ) (t : Thread)
    → drain 2 mc (with_pending false n t) ≡ some (caught_up mc n (with_pending false 0 t))
drain-pending mc n t = elim (Bool-cases (n == 0)) [
  | inl e ↦ let z : n ≡ 0 = ground arith in rw z (drain-zero 1 mc (with_pending false 0 t) refl)
  | inr e ↦
      let ticked = handle_tick mc (with_pending false 0 t) in
      let quiet : ticked.n_signal_pendings ≡ 0 =
        (handle_tick-IsTick mc (with_pending false 0 t)).pendings in
      drain-more 1 mc (with_pending false n t) e ∙ drain-zero 0 mc ticked quiet ∙ rw e refl
]

unpended :
    (t : Thread) → t.in_critical ≡ false → t.n_signal_pendings ≡ 0 → t ≡ with_pending false 0 t
unpended t h k = λ i. record t { in_critical = h i; n_signal_pendings = k i }

entered_pending : (t : Thread) → t.n_signal_pendings ≡ 0 → entered t ≡ with_pending true 0 t
entered_pending t k = λ i. record t { in_critical = true; n_signal_pendings = k i }

finish_deferred :
    {R : Type 0} (mc : Machine) (early late : ℕ) (r : R × Thread)
    → finish 2 mc late (with_pending_of true early r)
      ≡ some (r.0, caught_up mc (early + late) (with_pending false 0 r.1))
unfolding finish
finish_deferred mc early late r =
    ap (λ (u : Thread). returns r.0 (drain 2 mc (left u))) (signals_counted late mc early r.1)
    ∙ ap (returns r.0) (drain-pending mc (early + late) r.1)

-- A body that reads and writes neither the flag nor the count, in a critical section.
module _ {R : Type 0} (mc : Machine) (f : Thread → R × Thread)
    (f_pending : (b : Bool) (n : ℕ) (t : Thread)
      → f (with_pending b n t) ≡ with_pending_of b n (f t)) where
  -- What the body is given, and what it gives.
  body_deferred :
      (early : ℕ) (t : Thread)
      → t.n_signal_pendings ≡ 0
      → f (signals early mc (entered t)) ≡ with_pending_of true early (f t)
  body_deferred early t k =
      ap (λ (u : Thread). f (signals early mc u)) (entered_pending t k)
      ∙ ap f (signals_counted early mc 0 t)
      ∙ f_pending true (0 + early) t
      ∙ ap (λ (n : ℕ). with_pending_of true n (f t)) (omega arith)

  pub section_deferred :
      (early late : ℕ) (t : Thread)
      → t.in_critical ≡ false
      → t.n_signal_pendings ≡ 0
      → finish 2 mc late (f (signals early mc (entered t)))
        ≡ some ((f t).0, caught_up mc (early + late) (f t).1)
  section_deferred early late t h k =
      let quiet : f t ≡ with_pending_of false 0 (f t) =
        ap f (unpended t h k) ∙ f_pending false 0 t in
      ap (finish 2 mc late) (body_deferred early t k)
      ∙ finish_deferred mc early late (f t)
      ∙ ap (λ (r : R × Thread). some ((f t).0, caught_up mc (early + late) r.1)) (sym quiet)

-- A thread outside of a critical section, with no tick put off, that calls one of the functions, whatever
-- number of signals arrive in the section in front of the body and behind it: two rounds of the closing
-- loop are enough for the call to return; the body sees and leaves the context as if no signal had
-- come; and the ticks come afterwards, all as one, or none if there was no signal.
pub run_section-deferred :
    (mc : Machine) (s : Section) (early late : ℕ) (t : Thread)
    → t.in_critical ≡ false
    → t.n_signal_pendings ≡ 0
    → run_section 2 mc s early late t
      ≡ some ((body mc s t).0, caught_up mc (early + late) (body mc s t).1)
unfolding run_section
run_section-deferred mc s early late t =
    section_deferred mc (body mc s) (body_pending mc s) early late t
