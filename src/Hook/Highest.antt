-- ===== src/Hook/Highest.antt =====
-- Which context a tick of src/dym_hook.c uses.
use pmu_roboflex.Prelude.{
  ℕ, suc, ◌+◌, ◌≡◌, refl, Bool, true, false, ◌&&◌, some, List, [], ◌∷◌, All, get_elem?, take, arith,
  Bool-cases, inl, inr, ◌⊎◌, ap, ◌∙◌, sym, subst,
}
use pmu_roboflex.Prelude.Int.{ℤ, ◌≤ℤ◌, ltb_int}
use pmu_roboflex.Contexts.{Entry}
use pmu_roboflex.Contexts.Types.{LocalContext}
use pmu_roboflex.Hook.{Thread, Chosen, own, entry, is_active, highest, choose}

-- An active entry is at or below a level.
abbrev pub AtMost : (ℤ → Bool) → ℤ → Entry LocalContext → Type 0
AtMost is_set level e = is_active is_set e ≡ true → e.ctx.level ≤ℤ level

-- The k-th entry is active, above a level, and above each active entry in front of it.
pub record IsTop (is_set : ℤ → Bool) (es : List (Entry LocalContext)) (base : ℤ) (k : ℕ) (level : ℤ)
    : Type 0 where
  pub chosen : Entry LocalContext
  pub found : get_elem? es k ≡ some chosen
  pub active : is_active is_set chosen ≡ true
  pub has_level : chosen.ctx.level ≡ level
  pub above_base : ltb_int base level ≡ true
  pub above_before :
      All (λ e. is_active is_set e ≡ true → ltb_int e.ctx.level level ≡ true) (take k es)

module _ (is_set : ℤ → Bool) where
  abbrev Best : ℕ → List (Entry LocalContext) → ℤ × Chosen → ℤ × Chosen → Type 0
  Best i es best r = (r ≡ best) ⊎ ((k : ℕ) × (r.1 ≡ entry (i + k)) × IsTop is_set es best.0 k r.0)

  module _ (i : ℕ) (e : Entry LocalContext) (es : List (Entry LocalContext))
      (best : ℤ × Chosen) where
    highest-take :
        (is_active is_set e && ltb_int best.0 e.ctx.level) ≡ true
        → highest is_set i (e ∷ es) best ≡ highest is_set (i + 1) es (e.ctx.level, entry i)
    unfolding highest
    highest-take h = rw (highest, h) refl

    highest-leave :
        (is_active is_set e && ltb_int best.0 e.ctx.level) ≡ false
        → highest is_set i (e ∷ es) best ≡ highest is_set (i + 1) es best
    unfolding highest
    highest-leave h = rw (highest, h) refl

  highest_above :
      (i : ℕ) (es : List (Entry LocalContext)) (best : ℤ × Chosen)
      → best.0 ≤ℤ (highest is_set i es best).0
  highest_above i [] best = unfold highest in omega arith
  highest_above i (e ∷ es) best =
      elim (Bool-cases (is_active is_set e && ltb_int best.0 e.ctx.level)) [
        | inl h ↦
            rw (highest-take i e es best h)
              (ground (arith, highest_above (i + 1) es (e.ctx.level, entry i)))
        | inr h ↦ rw (highest-leave i e es best h) (highest_above (i + 1) es best)
      ]

  highest-AtMost :
      (i : ℕ) (es : List (Entry LocalContext)) (best : ℤ × Chosen)
      → All (AtMost is_set (highest is_set i es best).0) es
  highest-AtMost i [] best = tt
  highest-AtMost i (e ∷ es) best =
      elim (Bool-cases (is_active is_set e && ltb_int best.0 e.ctx.level)) [
        | inl h ↦
            subst (λ (r : ℤ × Chosen). All (AtMost is_set r.0) (e ∷ es))
              (sym (highest-take i e es best h))
              (
                λ on. highest_above (i + 1) es (e.ctx.level, entry i),
                highest-AtMost (i + 1) es (e.ctx.level, entry i),
              )
        | inr h ↦
            subst (λ (r : ℤ × Chosen). All (AtMost is_set r.0) (e ∷ es))
              (sym (highest-leave i e es best h))
              (λ on. ground (arith, highest_above (i + 1) es best), highest-AtMost (i + 1) es best)
      ]

  -- The entry in front of a top that it beats.
  later-IsTop :
      (e : Entry LocalContext) (es : List (Entry LocalContext)) (base base' : ℤ) (k : ℕ) (level : ℤ)
      → base ≤ℤ base'
      → (is_active is_set e ≡ true → e.ctx.level ≤ℤ base')
      → IsTop is_set es base' k level
      → IsTop is_set (e ∷ es) base (suc k) level
  later-IsTop e es base base' k level h g top = record {
    chosen = top.chosen;
    found = top.found;
    active = top.active;
    has_level = top.has_level;
    above_base = ground (arith, top.above_base);
    above_before = (λ on. ground (arith, g on, top.above_base), top.above_before);
  }

  first-IsTop :
      (e : Entry LocalContext) (es : List (Entry LocalContext)) (base : ℤ)
      → (is_active is_set e && ltb_int base e.ctx.level) ≡ true
      → IsTop is_set (e ∷ es) base 0 e.ctx.level
  first-IsTop e es base h = record {
    chosen = e;
    found = refl;
    active = ground arith;
    has_level = refl;
    above_base = ground arith;
    above_before = tt;
  }

  shifted : (i k : ℕ) {c : Chosen} → c ≡ entry ((i + 1) + k) → c ≡ entry (i + suc k)
  shifted i k h = h ∙ ap (λ (n : ℕ). entry n) (omega arith)

  highest-Best :
      (i : ℕ) (es : List (Entry LocalContext)) (best : ℤ × Chosen)
      → Best i es best (highest is_set i es best)
  highest-Best i [] best = inl (unfold highest in refl)
  highest-Best i (e ∷ es) best =
      elim (Bool-cases (is_active is_set e && ltb_int best.0 e.ctx.level)) [
        | inl h ↦
            rw (highest-take i e es best h) (elim (highest-Best (i + 1) es (e.ctx.level, entry i)) [
              | inl same ↦ inr (
                0,
                ap (λ (p : ℤ × Chosen). p.1) same ∙ ap (λ (n : ℕ). entry n) (omega arith),
                rw same (first-IsTop e es best.0 h),
              )
              | inr (k, place, top) ↦ inr (
                suc k,
                shifted i k place,
                later-IsTop e es best.0 e.ctx.level k _ (ground arith) (λ on. omega arith) top,
              )
            ])
        | inr h ↦ rw (highest-leave i e es best h) (elim (highest-Best (i + 1) es best) [
          | inl same ↦ inl same
          | inr (k, place, top) ↦ inr (
            suc k,
            shifted i k place,
            later-IsTop e es best.0 best.0 k _ (omega arith) (λ on. ground arith) top,
          )
        ])
      ]

-- The level of the context that a tick uses is at least that of the thread's own and that of every active
-- entry, one that is in use and whose event is on; and the context is the thread's own, or that of an
-- active entry above the thread's own level and above every active entry in front of it.
pub choose-highest :
    (is_set : ℤ → Bool) (t : Thread)
    → (level : ℤ) × (t.loc_ctx.level ≤ℤ level)
      × All (AtMost is_set level) t.event_map.entries
      × (((choose is_set t ≡ own) × (level ≡ t.loc_ctx.level))
          ⊎ ((k : ℕ) × (choose is_set t ≡ entry k)
              × IsTop is_set t.event_map.entries t.loc_ctx.level k level))
unfolding choose
choose-highest is_set t =
    let es = t.event_map.entries in
    let base : ℤ × Chosen = (t.loc_ctx.level, own) in
    (
      (highest is_set 0 es base).0,
      highest_above is_set 0 es base,
      highest-AtMost is_set 0 es base,
      elim (highest-Best is_set 0 es base) [
        | inl same ↦ inl (ap (λ (p : ℤ × Chosen). p.1) same, ap (λ (p : ℤ × Chosen). p.0) same)
        | inr (k, place, top) ↦ inr (k, place ∙ ap (λ (n : ℕ). entry n) (omega arith), top)
      ],
    )
