-- ===== src/Contexts/Bounded.antt =====
-- Different indices of events are few: what keeps the table of inc/robflex_def.h from filling up.
use pmu_roboflex.Prelude.{
  ℕ, zero, suc, ◌≤◌, ◌≡◌, true, List, [], ◌∷◌, All, if◌then◌else◌, length, arith, Bool-cases, inl,
  inr,
}
use pmu_roboflex.Prelude.Int.{ℤ, ◌≤ℤ◌, pos, beq_int}
use pmu_roboflex.Contexts.Indices.{IsFresh, IsDistinct}

-- An index from 1 to n.
abbrev pub IsWithin : ℕ → ℤ → Type 0
IsWithin n k = (pos 1 ≤ℤ k) × (k ≤ℤ pos n)

without : ℤ → List ℤ → List ℤ
without i [] = []
without i (k ∷ ks) = if beq_int i k then ks else k ∷ without i ks

length-without : (i : ℤ) (ks : List ℤ) → length ks ≤ suc (length (without i ks))
unfolding without
length-without i [] = omega arith
length-without i (k ∷ ks) = ground (arith, length-without i ks)

IsWithin-lower :
    (n : ℕ) (i : ℤ) (ks : List ℤ)
    → beq_int (pos (suc n)) i ≡ true
    → IsFresh i ks
    → All (IsWithin (suc n)) ks
    → All (IsWithin n) ks
IsWithin-lower n i [] e f h = tt
IsWithin-lower n i (k ∷ ks) e (g, f) (w, h) = (ground arith, IsWithin-lower n i ks e f h)

without-IsFresh : (i j : ℤ) (ks : List ℤ) → IsFresh j ks → IsFresh j (without i ks)
unfolding without
without-IsFresh i j [] h = tt
without-IsFresh i j (k ∷ ks) (g, h) = elim (Bool-cases (beq_int i k)) [
  | inl e ↦ rw e h
  | inr e ↦ rw e (g, without-IsFresh i j ks h)
]

without-IsDistinct : (i : ℤ) (ks : List ℤ) → IsDistinct ks → IsDistinct (without i ks)
unfolding without
without-IsDistinct i [] h = tt
without-IsDistinct i (k ∷ ks) (g, h) = elim (Bool-cases (beq_int i k)) [
  | inl e ↦ rw e h
  | inr e ↦ rw e (without-IsFresh i k ks g, without-IsDistinct i ks h)
]

without-IsWithin :
    (n : ℕ) (ks : List ℤ)
    → IsDistinct ks
    → All (IsWithin (suc n)) ks
    → All (IsWithin n) (without (pos (suc n)) ks)
unfolding without
without-IsWithin n [] d h = tt
without-IsWithin n (k ∷ ks) (f, d) (w, h) = elim (Bool-cases (beq_int (pos (suc n)) k)) [
  | inl e ↦ rw e (IsWithin-lower n k ks e f h)
  | inr e ↦ rw e (ground arith, without-IsWithin n ks d h)
]

-- Different indices from 1 to n are at most n.
pub length-within : (n : ℕ) (ks : List ℤ) → IsDistinct ks → All (IsWithin n) ks → length ks ≤ n
length-within zero [] d h = omega arith
length-within zero (k ∷ ks) d (w, h) = absurd (omega arith)
length-within (suc n) ks d h = omega (
  arith,
  length-without (pos (suc n)) ks,
  length-within n (without (pos (suc n)) ks) (without-IsDistinct (pos (suc n)) ks d)
      (without-IsWithin n ks d h),
)
