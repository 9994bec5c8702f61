-- ===== src/Contexts/Slots.antt =====
-- The entries of the table of inc/robflex_def.h as a map from event indices to contexts.
use pmu_roboflex.Prelude.{
  ℕ, suc, ◌≡◌, refl, Bool, true, false, Option, none, some, List, [], ◌∷◌, if◌then◌else◌, arith,
  Bool-cases, inl, inr, ap, sym, ◌≢◌,
}
use pmu_roboflex.Prelude.Int.{ℤ, beq_int}
use pmu_roboflex.Contexts.{
  Entry, event_none, bump, first, change, ctx_at, read_at, is_entry_of, is_free,
}

pub bump_inv : (o : Option ℕ) (i : ℕ) → bump o ≡ some i → (j : ℕ) × (i ≡ suc j) × (o ≡ some j)
bump_inv none i h = cc
bump_inv (some j) i h = (j, ground arith, refl)

module _ {Context : Type 0} where
  -- The context of an index.
  unfoldable pub value : ℤ → List (Entry Context) → Option Context
  value i [] = none
  value i (e ∷ es) = if is_entry_of i e then some e.ctx else value i es

  -- The indices in use.
  unfoldable pub used : List (Entry Context) → List ℤ
  used [] = []
  used (e ∷ es) = if e.in_use then e.event_idx ∷ used es else used es

  -- A write at the first entry at which the test holds, in one pass.
  unfoldable pub change_first :
      (Entry Context → Bool)
      → (Entry Context → Entry Context)
      → List (Entry Context)
      → List (Entry Context)
  change_first test f [] = []
  change_first test f (e ∷ es) = if test e then f e ∷ es else e ∷ change_first test f es

  pub change-first :
      (test : Entry Context → Bool) (f : Entry Context → Entry Context) (es : List (Entry Context))
      (i : ℕ)
      → first test es ≡ some i
      → change f i es ≡ change_first test f es
  unfolding first change change_first
  change-first test f [] i h = cc
  change-first test f (e ∷ es) i h = elim (Bool-cases (test e)) [
    | inl yes_ ↦
        let zeroth : i ≡ 0 = (let g : some 0 ≡ some i = rw yes_ at h in ground arith) in
        rw (zeroth, yes_) refl
    | inr no_ ↦
        let (j, next, found) = bump_inv (first test es) i (rw no_ at h) in
        rw (next, no_) (ap (λ l. e ∷ l) (change-first test f es j found))
  ]

  read-bump :
      (o : Option ℕ) (e : Entry Context) (es : List (Entry Context))
      → read_at (bump o) (e ∷ es) ≡ read_at o es
  unfolding ctx_at
  read-bump none e es = refl
  read-bump (some i) e es = refl

  pub read-first :
      (i : ℤ) (es : List (Entry Context)) → read_at (first (is_entry_of i) es) es ≡ value i es
  unfolding first value ctx_at
  read-first i [] = refl
  read-first i (e ∷ es) = elim (Bool-cases (is_entry_of i e)) [
    | inl here ↦ rw here refl
    | inr later ↦ rw (later, read-bump (first (is_entry_of i) es) e es) (read-first i es)
  ]

  pub first-none-value :
      (i : ℤ) (es : List (Entry Context)) → first (is_entry_of i) es ≡ none → value i es ≡ none
  first-none-value i es h = let found : none ≡ value i es = rw h at (read-first i es) in sym found

  pub first-some-value :
      (i : ℤ) (es : List (Entry Context)) (k : ℕ)
      → first (is_entry_of i) es ≡ some k
      → value i es ≢ none
  unfolding first value
  first-some-value i [] k h e = cc
  first-some-value i (x ∷ es) k h e = elim (Bool-cases (is_entry_of i x)) [
    | inl here ↦ let some_ctx : some x.ctx ≡ none = rw here at e in cc
    | inr later ↦
        let (j, next, found) = bump_inv (first (is_entry_of i) es) k (rw later at h) in
        first-some-value i es j found (rw later at e)
  ]

  -- The writes of the three operations.
  abbrev pub with_ctx : Context → Entry Context → Entry Context
  with_ctx c e = record e { ctx = c }

  abbrev pub taken : ℤ → Context → Entry Context → Entry Context
  taken i c e = record { event_idx = i; in_use = true; ctx = c }

  abbrev pub dropped : Entry Context → Entry Context
  dropped e = record e { in_use = false; event_idx = event_none }

  pub value-with_ctx :
      (i j : ℤ) (c : Context) (es : List (Entry Context))
      → value i es ≢ none
      → value j (change_first (is_entry_of i) (with_ctx c) es)
        ≡ (if beq_int i j then some c else value j es)
  unfolding value change_first
  value-with_ctx i j c [] h = absurd (h refl)
  value-with_ctx i j c (e ∷ es) h = elim (Bool-cases (is_entry_of i e)) [
    | inl here ↦ rw here (ground arith)
    | inr later ↦ let ih = value-with_ctx i j c es (rw later at h) in rw later (ground (arith, ih))
  ]

  pub used-with_ctx :
      (i : ℤ) (c : Context) (es : List (Entry Context))
      → used (change_first (is_entry_of i) (with_ctx c) es) ≡ used es
  unfolding used change_first
  used-with_ctx i c [] = refl
  used-with_ctx i c (e ∷ es) = ground (arith, used-with_ctx i c es)

  pub value-taken :
      (i j : ℤ) (c : Context) (es : List (Entry Context)) (k : ℕ)
      → first is_free es ≡ some k
      → value i es ≡ none
      → value j (change_first is_free (taken i c) es) ≡ (if beq_int i j then some c else value j es)
  unfolding value change_first first
  value-taken i j c [] k f h = cc
  value-taken i j c (e ∷ es) k f h = elim (Bool-cases e.in_use) [
    | inl busy ↦ elim (Bool-cases (is_entry_of i e)) [
      | inl here ↦ absurd (let bad : some e.ctx ≡ none = rw here at h in cc)
      | inr other ↦
          let (n, next, found) = bump_inv (first is_free es) k (rw busy at f) in
          let ih = value-taken i j c es n found (rw other at h) in rw busy (ground (arith, ih))
    ]
    | inr free ↦ rw free (ground arith)
  ]
