-- ===== src/Hook/Sections/Chain/Stages.antt =====
-- A stage of a chain, from robflex_chained_from_latency to robflex_shot_on_latency, with ticks anywhere.
use mathlib.Core.Option
use pmu_roboflex.Prelude.{
  ℕ, ◌+◌, ◌<◌, ◌≡◌, refl, Bool, false, Option, none, some, arith, Bool-cases, inl, inr, ap, ◌∙◌,
}
use pmu_roboflex.Prelude.Int.{ℤ}
use pmu_roboflex.Prelude.Word64.{add64, sub64}
use pmu_roboflex.Contexts.Types.{latency_oriented}
use pmu_roboflex.Hook.{Machine, Thread}
use pmu_roboflex.Hook.Sections.{ChainContext, chained_from_latency, body, run_section, signals}
use pmu_roboflex.Hook.Sections.Deferred.{
  caught_up, with_pending, with_pending_of, section_deferred, run_section-deferred,
}
use pmu_roboflex.Hook.Sections.Chain.{is_unpaced, shot, restart, robflex_shot_on_latency}
use pmu_roboflex.Hook.Sections.Chain.Paced.{IsAtWork, caught_up-IsAtWork, signals-IsAtWork}

shot_pending :
    (mc : Machine) (b : Bool) (n : ℕ) (t : Thread)
    → shot mc (with_pending b n t) ≡ with_pending_of b n (shot mc t)
unfolding shot
shot_pending mc b n t = elim (Bool-cases (is_unpaced t.loc_ctx.policy)) [
  | inl e ↦ rw e refl
  | inr e ↦ rw e refl
]

-- What a thread hands on at a time.
abbrev pub handed : ℕ → ℕ → ℕ → ℕ → ℕ → ChainContext
handed target start total used now = record {
  total_latency = add64 total target;
  used_latency = add64 used (sub64 now start);
  local_target_latency = target;
  local_used_latency = sub64 now start;
}

shot-handed :
    (mc : Machine) (first target start total used : ℕ) (t : Thread)
    → IsAtWork first target start total used t
    → (shot mc t).0 ≡ some (handed target start total used (mc.clock t.readings))
unfolding shot
shot-handed mc first target start total used t h =
    rw (h.paced.policy, h.paced.has_target, h.paced.has_start, h.paced.has_total, h.paced.has_used)
      refl

-- The chain that a call gives, whatever signals arrive in it.
abbrev pub Gives : Option (ChainContext × Thread) → ChainContext → Type 0
Gives r chain = (t : Thread) × (r ≡ some (chain, t))

shot_on_latency-handed :
    (mc : Machine) (first target start total used early late : ℕ) (t : Thread)
    → IsAtWork first target start total used t
    → Gives
        (robflex_shot_on_latency 2 mc early late t)
        (handed target start total used (mc.clock t.readings))
unfolding robflex_shot_on_latency restart
shot_on_latency-handed mc first target start total used early late t h = (
  _,
  ap (Option.map (restart mc))
        (section_deferred mc (shot mc) (shot_pending mc) early late t h.in_critical h.pendings)
      ∙ ap
          (λ (c : Option ChainContext).
            some (restart mc (c, caught_up mc (early + late) (shot mc t).1)))
          (shot-handed mc first target start total used t h),
)

-- A whole stage: the call that takes the chain, ticks, and the call that hands it on.
abbrev pub shot_after : Machine → ℕ → ℕ → ℕ → Option (ℤ × Thread) → Option (ChainContext × Thread)
shot_after mc ticks early late none = none
shot_after mc ticks early late (some (ret, t)) =
    robflex_shot_on_latency 2 mc early late (signals ticks mc t)

chained-IsAtWork :
    (mc : Machine) (chain : ChainContext) (percent : ℤ) (t : Thread)
    → t.loc_ctx.policy ≡ latency_oriented
    → t.in_critical ≡ false
    → t.n_signal_pendings ≡ 0
    → IsAtWork t.readings t.loc_ctx.aux.target_lat
        (mc.clock t.readings)
        chain.total_latency
        chain.used_latency
        (body mc (chained_from_latency chain percent) t).1
unfolding body
chained-IsAtWork mc chain percent t p h k = record {
  paced = record {
    policy = p;
    has_target = refl;
    has_start = refl;
    has_total = refl;
    has_used = refl;
  };
  in_critical = h;
  pendings = k;
  later = omega arith;
}

-- The thread that a stage leaves in front of the call that hands the chain on: the body of the call that
-- takes it, a tick for the signals in that call's critical section, and the ticks between the calls.
abbrev pub worked : Machine → ChainContext → ℤ → ℕ → ℕ → Thread → Thread
worked mc chain percent pending ticks t =
    signals ticks mc (caught_up mc pending (body mc (chained_from_latency chain percent) t).1)

-- A thread under LATENCY_ORIENTED takes a chain outside of a critical section, with no tick put off, and
-- later hands it on. Signals may arrive in any number in the critical section of either call, in front of
-- its body or behind it, and between the calls, but none in the loop that closes a section or in the
-- statements behind it. Then it gives a chain whose latency is longer by that of the thread, and whose
-- used latency is longer by the time from the first call's reading of the clock to the first reading
-- behind the ticks of the stage, both in 64 bits; ticks put off in the second call do not count.
pub chain-accounts :
    (mc : Machine) (chain : ChainContext) (percent : ℤ) (early late ticks early' late' : ℕ)
    (t : Thread)
    → t.loc_ctx.policy ≡ latency_oriented
    → t.in_critical ≡ false
    → t.n_signal_pendings ≡ 0
    → (t.readings < (worked mc chain percent (early + late) ticks t).readings)
      × Gives
          (shot_after mc ticks early' late'
            (run_section 2 mc (chained_from_latency chain percent) early late t))
          (handed t.loc_ctx.aux.target_lat
            (mc.clock t.readings)
            chain.total_latency
            chain.used_latency
            (mc.clock (worked mc chain percent (early + late) ticks t).readings))
chain-accounts mc chain percent early late ticks early' late' t p h k =
    let target = t.loc_ctx.aux.target_lat in
    let start = mc.clock t.readings in
    let taken = (body mc (chained_from_latency chain percent) t).1 in
    let begun = caught_up mc (early + late) taken in
    let before = worked mc chain percent (early + late) ticks t in
    let first = t.readings in
    let at_work : IsAtWork first target start chain.total_latency chain.used_latency before =
      signals-IsAtWork mc first target start chain.total_latency chain.used_latency ticks begun (
        caught_up-IsAtWork mc first target start chain.total_latency chain.used_latency
          (early + late) taken (chained-IsAtWork mc chain percent t p h k)) in
    let (after, gives) =
      shot_on_latency-handed mc first target start chain.total_latency chain.used_latency early'
        late' before at_work in
    (
      at_work.later,
      (
        after,
        ap (shot_after mc ticks early' late')
              (run_section-deferred mc (chained_from_latency chain percent) early late t h k)
            ∙ gives,
      ),
    )
