-- ===== src/Contexts/Indices.antt =====
-- The indices in use in the table of inc/robflex_def.h: each stands once, and eight of them fill it.
use pmu_roboflex.Prelude.{
  ℕ, suc, ◌≡◌, refl, true, false, Option, none, some, List, [], ◌∷◌, All, if◌then◌else◌, length,
  arith, Bool-cases, inl, inr, subst,
}
use pmu_roboflex.Prelude.Int.{ℤ, pos, negsuc, beq_int}
use pmu_roboflex.Contexts.{Entry, bump, first, is_entry_of, is_free}
use pmu_roboflex.Contexts.Slots.{value, used, change_first, taken, dropped, bump_inv}

abbrev pub IsFresh : ℤ → List ℤ → Type 0
IsFresh i = All (λ k. beq_int i k ≡ false)

abbrev pub IsDistinct : List ℤ → Type 0
IsDistinct [] = Unit
IsDistinct (i ∷ is) = IsFresh i is × IsDistinct is

beq_int_sound : (a b : ℤ) → beq_int a b ≡ true → a ≡ b
beq_int_sound (pos a) (pos b) h = ground arith
beq_int_sound (pos a) (negsuc b) h = ground arith
beq_int_sound (negsuc a) (pos b) h = ground arith
beq_int_sound (negsuc a) (negsuc b) h = ground arith

bump-none : (o : Option ℕ) → bump o ≡ none → o ≡ none
bump-none none h = refl
bump-none (some i) h = cc

module _ {Context : Type 0} where
  -- An index that is not in use has no context.
  pub value-fresh : (i : ℤ) (es : List (Entry Context)) → IsFresh i (used es) → value i es ≡ none
  unfolding value used
  value-fresh i [] h = refl
  value-fresh i (e ∷ es) h = elim (Bool-cases e.in_use) [
    | inl busy ↦
        let (other, later) : IsFresh i (e.event_idx ∷ used es) = rw busy at h in
        rw busy (ground (arith, value-fresh i es later))
    | inr free ↦ rw free (value-fresh i es (rw free at h))
  ]

  pub IsFresh-value : (i : ℤ) (es : List (Entry Context)) → value i es ≡ none → IsFresh i (used es)
  unfolding value used
  IsFresh-value i [] h = tt
  IsFresh-value i (e ∷ es) h = elim (Bool-cases e.in_use) [
    | inl busy ↦ elim (Bool-cases (beq_int e.event_idx i)) [
      | inl same ↦ absurd (let bad : some e.ctx ≡ none = rw (busy, same) at h in cc)
      | inr other ↦
          let later : value i es ≡ none = rw (busy, other) at h in
          rw busy (ground arith, IsFresh-value i es later)
    ]
    | inr free ↦ rw free (IsFresh-value i es (rw free at h))
  ]

  -- The index of a new entry joins the others.
  module _ (P : ℤ → Type 0) where
    pub used-taken-All :
        (i : ℤ) (c : Context) (es : List (Entry Context))
        → P i
        → All P (used es)
        → All P (used (change_first is_free (taken i c) es))
    unfolding used change_first
    used-taken-All i c [] p h = tt
    used-taken-All i c (e ∷ es) p h = elim (Bool-cases e.in_use) [
      | inl busy ↦
          let (q, later) : All P (e.event_idx ∷ used es) = rw busy at h in
          rw busy (q, used-taken-All i c es p later)
      | inr free ↦ let later : All P (used es) = rw free at h in rw free (p, later)
    ]

    pub used-dropped-All :
        (i : ℤ) (es : List (Entry Context))
        → All P (used es)
        → All P (used (change_first (is_entry_of i) dropped es))
    unfolding used change_first
    used-dropped-All i [] h = tt
    used-dropped-All i (e ∷ es) h = elim (Bool-cases e.in_use) [
      | inl busy ↦
          let (q, later) : All P (e.event_idx ∷ used es) = rw busy at h in
          elim (Bool-cases (beq_int e.event_idx i)) [
            | inl same ↦ rw (busy, same) later
            | inr other ↦ rw (busy, other) (q, used-dropped-All i es later)
          ]
      | inr free ↦ rw free (used-dropped-All i es (rw free at h))
    ]

  pub used-taken-IsDistinct :
      (i : ℤ) (c : Context) (es : List (Entry Context))
      → IsFresh i (used es)
      → IsDistinct (used es)
      → IsDistinct (used (change_first is_free (taken i c) es))
  unfolding used change_first
  used-taken-IsDistinct i c [] f h = tt
  used-taken-IsDistinct i c (e ∷ es) f h = elim (Bool-cases e.in_use) [
    | inl busy ↦
        let (other, fs) : IsFresh i (e.event_idx ∷ used es) = rw busy at f in
        let (q, later) : IsDistinct (e.event_idx ∷ used es) = rw busy at h in
        rw busy (
          used-taken-All (λ k. beq_int e.event_idx k ≡ false) i c es (ground arith) q,
          used-taken-IsDistinct i c es fs later,
        )
    | inr free ↦ rw free ((rw free at f), (rw free at h))
  ]

  pub used-dropped-IsDistinct :
      (i : ℤ) (es : List (Entry Context))
      → IsDistinct (used es)
      → IsDistinct (used (change_first (is_entry_of i) dropped es))
  unfolding used change_first
  used-dropped-IsDistinct i [] h = tt
  used-dropped-IsDistinct i (e ∷ es) h = elim (Bool-cases e.in_use) [
    | inl busy ↦
        let (q, later) : IsDistinct (e.event_idx ∷ used es) = rw busy at h in
        elim (Bool-cases (beq_int e.event_idx i)) [
          | inl same ↦ rw (busy, same) later
          | inr other ↦
              rw (busy, other)
                (
                  used-dropped-All (λ k. beq_int e.event_idx k ≡ false) i es q,
                  used-dropped-IsDistinct i es later,
                )
        ]
    | inr free ↦ rw free (used-dropped-IsDistinct i es (rw free at h))
  ]

  pub length-used-taken :
      (i : ℤ) (c : Context) (es : List (Entry Context)) (k : ℕ)
      → first is_free es ≡ some k
      → length (used (change_first is_free (taken i c) es)) ≡ suc (length (used es))
  unfolding used change_first first
  length-used-taken i c [] k h = cc
  length-used-taken i c (e ∷ es) k h = elim (Bool-cases e.in_use) [
    | inl busy ↦
        let (n, next, found) = bump_inv (first is_free es) k (rw busy at h) in
        rw busy (omega (arith, length-used-taken i c es n found))
    | inr free ↦ rw free refl
  ]

  pub length-used-dropped :
      (i : ℤ) (es : List (Entry Context)) (k : ℕ)
      → first (is_entry_of i) es ≡ some k
      → suc (length (used (change_first (is_entry_of i) dropped es))) ≡ length (used es)
  unfolding used change_first first
  length-used-dropped i [] k h = cc
  length-used-dropped i (e ∷ es) k h = elim (Bool-cases (is_entry_of i e)) [
    | inl here ↦ rw here (ground arith)
    | inr other ↦
        let (n, next, found) = bump_inv (first (is_entry_of i) es) k (rw other at h) in
        rw other (ground (arith, length-used-dropped i es n found))
  ]

  -- With no entry free, as many indices are in use as there are entries.
  pub used_full :
      (es : List (Entry Context)) → first is_free es ≡ none → length (used es) ≡ length es
  unfolding used first
  used_full [] h = refl
  used_full (e ∷ es) h = elim (Bool-cases e.in_use) [
    | inl busy ↦
        let rest : first is_free es ≡ none = bump-none (first is_free es) (rw busy at h) in
        rw busy (omega (arith, used_full es rest))
    | inr free ↦ absurd (let bad : some 0 ≡ none = rw free at h in ground arith)
  ]

  -- Dropping an index forgets its context, and no other.
  pub value-dropped :
      (i j : ℤ) (es : List (Entry Context))
      → IsDistinct (used es)
      → value j (change_first (is_entry_of i) dropped es)
        ≡ (if beq_int i j then none else value j es)
  unfolding value change_first used
  value-dropped i j [] h = ground arith
  value-dropped i j (e ∷ es) h = elim (Bool-cases e.in_use) [
    | inl busy ↦
        let (q, later) : IsDistinct (e.event_idx ∷ used es) = rw busy at h in
        elim (Bool-cases (beq_int e.event_idx i)) [
          | inl same ↦
              let gone : value e.event_idx es ≡ none = value-fresh e.event_idx es q in
              rw (busy, same)
                (elim (Bool-cases (beq_int i j)) [
                  | inl hit ↦
                      let there : e.event_idx ≡ j = beq_int_sound e.event_idx j (ground arith) in
                      rw hit (subst (λ k. value k es ≡ none) there gone)
                  | inr miss ↦ ground arith
                ])
          | inr other ↦ rw (busy, other) (ground (arith, value-dropped i j es later))
        ]
    | inr free ↦ rw free (value-dropped i j es (rw free at h))
  ]
