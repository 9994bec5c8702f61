-- ===== src/Hook/Ticks.antt =====
-- A whole tick of src/dym_hook.c: what it changes, and what it leaves alone.
use pmu_roboflex.Prelude.{
  ℕ, zero, suc, ◌+◌, ◌*◌, ◌<◌, ◌≡◌, ◌≢◌, refl, Bool, Option, some, List, [], ◌∷◌, get_elem?, arith,
  inl, inr, ◌⊎◌, ap, ◌∙◌, sym, subst, some_inj,
}
use pmu_roboflex.Prelude.Int.{ℤ}
use pmu_roboflex.Prelude.Word64.{ll_bound}
use pmu_roboflex.Contexts.{Entry, change, ctx_at}
use pmu_roboflex.Contexts.Types.{
  RunPolicy, yielding, predetermined, immediate, latency_oriented, by_handler, UAuxData,
  LocalContext, time_slice_ns,
}
use pmu_roboflex.Contexts.Attach.{EventMap}
use pmu_roboflex.Hook.{
  Machine, Thread, SystemBusyDegree, Chosen, own, entry, choose, counted, handle_policy,
  handle_tick_vsleep, handle_tick_yielding, handle_tick_latency_oriented, context_of, or_own,
  put_aux, store_aux, tick_on, handle_tick,
}
use pmu_roboflex.Hook.Budgets.{IsThrottled, vsleep-IsThrottled, yielding-IsThrottled}
use pmu_roboflex.Hook.Highest.{choose-highest}

-- Everything but the clock, the averages and the waits.
pub record IsSame (t t' : Thread) : Type 0 where
  pub loc_ctx : t'.loc_ctx ≡ t.loc_ctx
  pub event_map : t'.event_map ≡ t.event_map
  pub in_critical : t'.in_critical ≡ t.in_critical
  pub pendings : t'.n_signal_pendings ≡ t.n_signal_pendings
  pub interrupts : t'.interrupt_count ≡ t.interrupt_count

pub handle_policy-IsSame :
    (mc : Machine) (busy : SystemBusyDegree) (p : RunPolicy) (aux : UAuxData) (t : Thread)
    → IsSame t (handle_policy mc busy p aux t).1
unfolding handle_policy handle_tick_vsleep handle_tick_yielding handle_tick_latency_oriented
handle_policy-IsSame mc busy yielding aux t = record {
  loc_ctx = refl;
  event_map = refl;
  in_critical = refl;
  pendings = refl;
  interrupts = refl;
}
handle_policy-IsSame mc busy predetermined aux t = record {
  loc_ctx = refl;
  event_map = refl;
  in_critical = refl;
  pendings = refl;
  interrupts = refl;
}
handle_policy-IsSame mc busy immediate aux t = record {
  loc_ctx = refl;
  event_map = refl;
  in_critical = refl;
  pendings = refl;
  interrupts = refl;
}
handle_policy-IsSame mc busy latency_oriented aux t = record {
  loc_ctx = refl;
  event_map = refl;
  in_critical = refl;
  pendings = refl;
  interrupts = refl;
}
handle_policy-IsSame mc busy by_handler aux t = record {
  loc_ctx = refl;
  event_map = refl;
  in_critical = refl;
  pendings = refl;
  interrupts = refl;
}

-- The flags of a critical section, and the count of ticks.
pub record IsTick (t t' : Thread) : Type 0 where
  pub in_critical : t'.in_critical ≡ t.in_critical
  pub pendings : t'.n_signal_pendings ≡ t.n_signal_pendings
  pub interrupts : t'.interrupt_count ≡ t.interrupt_count + 1

store-IsTick :
    (c : Chosen) (aux : UAuxData) (t t' : Thread)
    → IsSame (counted t) t'
    → IsTick t (store_aux c aux t')
unfolding store_aux counted
store-IsTick own aux t t' h = record {
  in_critical = h.in_critical;
  pendings = h.pendings;
  interrupts = h.interrupts;
}
store-IsTick (entry i) aux t t' h = record {
  in_critical = h.in_critical;
  pendings = h.pendings;
  interrupts = h.interrupts;
}

pub handle_tick-IsTick : (mc : Machine) (t : Thread) → IsTick t (handle_tick mc t)
unfolding handle_tick tick_on
handle_tick-IsTick mc t =
    let c = choose (mc.is_set t.interrupt_count) t in
    let ctx = context_of c (counted t) in
    store-IsTick c _ t _
      (handle_policy-IsSame mc (mc.busy_degree t.interrupt_count) ctx.policy ctx.aux (counted t))

-- Contexts in a list of entries, under a change of one.
ctx_at-get :
    (es : List (Entry LocalContext)) (k : ℕ) (e : Entry LocalContext)
    → get_elem? es k ≡ some e
    → ctx_at k es ≡ some e.ctx
unfolding ctx_at
ctx_at-get [] k e h = cc
ctx_at-get (x ∷ es) zero e h = ap (λ (y : Entry LocalContext). some y.ctx) (some_inj h)
ctx_at-get (x ∷ es) (suc k) e h = ctx_at-get es k e h

abbrev aux_write : UAuxData → Entry LocalContext → Entry LocalContext
aux_write aux e = record e { ctx = put_aux aux e.ctx }

ctx_at-change_self :
    (es : List (Entry LocalContext)) (k : ℕ) (aux : UAuxData) {ctx : LocalContext}
    → ctx_at k es ≡ some ctx
    → ctx_at k (change (aux_write aux) k es) ≡ some (put_aux aux ctx)
unfolding ctx_at change
ctx_at-change_self [] k aux h = cc
ctx_at-change_self (x ∷ es) zero aux h =
    ap (λ (c : LocalContext). some (put_aux aux c)) (some_inj h)
ctx_at-change_self (x ∷ es) (suc k) aux h = ctx_at-change_self es k aux h

ctx_at-change_other :
    (es : List (Entry LocalContext)) (k j : ℕ) (aux : UAuxData)
    → j ≢ k
    → ctx_at j (change (aux_write aux) k es) ≡ ctx_at j es
unfolding ctx_at change
ctx_at-change_other [] k j aux h = refl
ctx_at-change_other (x ∷ es) zero zero aux h = absurd (h refl)
ctx_at-change_other (x ∷ es) zero (suc j) aux h = refl
ctx_at-change_other (x ∷ es) (suc k) zero aux h = refl
ctx_at-change_other (x ∷ es) (suc k) (suc j) aux h = ctx_at-change_other es k j aux (omega arith)

-- The pointer leads to a context.
abbrev IsValid : Chosen → Thread → Type 0
IsValid own t = Unit
IsValid (entry k) t = (ctx : LocalContext) × (ctx_at k t.event_map.entries ≡ some ctx)

choose-IsValid : (is_set : ℤ → Bool) (t : Thread) → IsValid (choose is_set t) t
choose-IsValid is_set t =
    let (level, above, all, cases) = choose-highest is_set t in
    elim cases [
      | inl (e, same) ↦ subst (λ (c : Chosen). IsValid c t) (sym e) tt
      | inr (k, e, top) ↦
          subst (λ (c : Chosen). IsValid c t) (sym e)
            (top.chosen.ctx, ctx_at-get t.event_map.entries k top.chosen top.found)
    ]

-- What a store through the pointer changes of a thread whose contexts are those of `t`.
store-chosen :
    (c : Chosen) (aux : UAuxData) (t t' : Thread)
    → IsValid c t
    → IsSame (counted t) t'
    → context_of c (store_aux c aux t') ≡ put_aux aux (context_of c t)
unfolding context_of store_aux counted
store-chosen own aux t t' v h = ap (put_aux aux) h.loc_ctx
store-chosen (entry k) aux t t' (ctx, v) h =
    let moved : ctx_at k t'.event_map.entries ≡ some ctx =
      ap (λ (m : EventMap). ctx_at k m.entries) h.event_map ∙ v in
    ap (or_own t'.loc_ctx) (ctx_at-change_self t'.event_map.entries k aux moved)
    ∙ sym (ap (λ (c : Option LocalContext). put_aux aux (or_own t.loc_ctx c)) v)

store-own :
    (c : Chosen) (aux : UAuxData) (t t' : Thread)
    → IsSame (counted t) t'
    → c ≢ own
    → (store_aux c aux t').loc_ctx ≡ t.loc_ctx
unfolding store_aux counted
store-own own aux t t' h n = absurd (n refl)
store-own (entry k) aux t t' h n = h.loc_ctx

store-entry :
    (c : Chosen) (aux : UAuxData) (t t' : Thread) (j : ℕ)
    → IsSame (counted t) t'
    → c ≢ entry j
    → ctx_at j (store_aux c aux t').event_map.entries ≡ ctx_at j t.event_map.entries
unfolding store_aux counted
store-entry own aux t t' j h n = ap (λ (m : EventMap). ctx_at j m.entries) h.event_map
store-entry (entry k) aux t t' j h n =
    ctx_at-change_other t'.event_map.entries k j aux (λ e. n (ap (λ (i : ℕ). entry i) (sym e)))
    ∙ ap (λ (m : EventMap). ctx_at j m.entries) h.event_map

counted_context : (c : Chosen) (t : Thread) → context_of c (counted t) ≡ context_of c t
unfolding context_of counted
counted_context own t = refl
counted_context (entry k) t = refl

policy-IsThrottled :
    (mc : Machine) (busy : SystemBusyDegree) (p : RunPolicy) (aux : UAuxData) (t : Thread)
    → (p ≡ yielding) ⊎ (p ≡ predetermined)
    → time_slice_ns aux * 5 < ll_bound
    → IsThrottled aux
        (handle_policy mc busy p aux t).0
        t.waits
        (handle_policy mc busy p aux t).1.waits
unfolding handle_policy
policy-IsThrottled mc busy p aux t (inl e) h = rw e (vsleep-IsThrottled mc aux t h)
policy-IsThrottled mc busy p aux t (inr e) h = rw e (yielding-IsThrottled mc busy aux t h)

waits-store : (c : Chosen) (aux : UAuxData) (t : Thread) → (store_aux c aux t).waits ≡ t.waits
unfolding store_aux
waits-store own aux t = refl
waits-store (entry k) aux t = refl

-- The context that a tick uses.
abbrev pub chosen_in : Machine → Thread → Chosen
chosen_in mc t = choose (mc.is_set t.interrupt_count) t

-- Let the context that a tick uses have the policy YIELDING or PREDETERMINED and five time slices below
-- 2^63 ns. Whatever the clock says, the tick keeps its time slice, leaves it a budget of at most five
-- slices either way, and gives the processor away at most once, for no longer than one slice or by a
-- yield. It leaves every other context as it was.
pub handle_tick-IsThrottled :
    (mc : Machine) (t : Thread)
    → ((context_of (chosen_in mc t) t).policy ≡ yielding)
      ⊎ ((context_of (chosen_in mc t) t).policy ≡ predetermined)
    → time_slice_ns (context_of (chosen_in mc t) t).aux * 5 < ll_bound
    → IsThrottled
        (context_of (chosen_in mc t) t).aux
        (context_of (chosen_in mc t) (handle_tick mc t)).aux
        t.waits
        (handle_tick mc t).waits
      × (chosen_in mc t ≢ own → (handle_tick mc t).loc_ctx ≡ t.loc_ctx)
      × ((j : ℕ)
          → chosen_in mc t ≢ entry j
          → ctx_at j (handle_tick mc t).event_map.entries ≡ ctx_at j t.event_map.entries)
unfolding handle_tick tick_on
handle_tick-IsThrottled mc t p h =
    let c = chosen_in mc t in
    let busy = mc.busy_degree t.interrupt_count in
    let ctx = context_of c t in
    let r = handle_policy mc busy ctx.policy ctx.aux (counted t) in
    let same : IsSame (counted t) r.1 =
      handle_policy-IsSame mc busy ctx.policy ctx.aux (counted t) in
    rw (counted_context c t) (
      rw
          (
            store-chosen c r.0 t r.1 (choose-IsValid (mc.is_set t.interrupt_count) t) same,
            waits-store c r.0 r.1,
          )
          (policy-IsThrottled mc busy ctx.policy ctx.aux (counted t) p h),
      store-own c r.0 t r.1 same,
      λ j. store-entry c r.0 t r.1 j same,
    )
