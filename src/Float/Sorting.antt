-- ===== src/Float/Sorting.antt =====
-- `sorted(values)`: the stable sort by `<`. It is written by insertion; on values without NaN the
-- result of Python's own sort is the same, since both are stable.
use mathlib.Core.List.{Perm, perm_middle}
use mathlib.Core.List.Perm
use pmu_roboflex.Prelude.{
  ℕ, zero, suc, ◌+◌, ◌≤◌, ◌++◌, append-nil, ◌≡◌, refl, Bool, false, Bool-cases, inl, inr, some,
  List, [], ◌∷◌, All, length, get_elem?, if◌then◌else◌, arith, some_inj, All-get, All-of_get,
  get_elem?-lt, ◌-◌,
}
use pmu_roboflex.Float.{Float, IsOrdered}

module _ {W : Type 0} (lt : W → W → Bool) where
  -- Behind all values that are not greater.
  unfoldable pub insort : W → List W → List W
  insort x [] = x ∷ []
  insort x (y ∷ ys) = let rest = insort x ys in if lt x y then x ∷ y ∷ ys else y ∷ rest

  unfoldable pub insort_all : List W → List W → List W
  unfolding insort
  insort_all [] done = done
  insort_all (x ∷ xs) done = insort_all xs (insort x done)

  unfoldable pub sorted : List W → List W
  unfolding insort_all
  sorted xs = insort_all xs []

  insort-perm : (x : W) (ys : List W) → Perm (insort x ys) (x ∷ ys)
  unfolding insort
  insort-perm x [] = Perm.refl (x ∷ [])
  insort-perm x (y ∷ ys) = elim (Bool-cases (lt x y)) [
    | inl before ↦ rw before (Perm.refl (x ∷ y ∷ ys))
    | inr behind ↦ rw behind (Perm.trans (Perm.cons y (insort-perm x ys)) (Perm.swap x y ys))
  ]

  insort_all-cons :
      (x : W) (xs done : List W) → insort_all (x ∷ xs) done ≡ insort_all xs (insort x done)
  unfolding insort_all
  insort_all-cons x xs done = refl

  insort_all-perm : (xs done : List W) → Perm (insort_all xs done) (xs ++ done)
  insort_all-perm [] done = unfold insort_all in Perm.refl done
  insort_all-perm (x ∷ xs) done = rw insort_all-cons (
      Perm.trans (insort_all-perm xs (insort x done))
        (Perm.trans (Perm.append_left xs (insort-perm x done)) (perm_middle xs done)))

  pub sorted-perm : (xs : List W) → Perm (sorted xs) xs
  sorted-perm xs = unfold sorted in rw append-nil at (insort_all-perm xs [])

  insort-All : (P : W → Type 0) (x : W) (ys : List W) → All P (insort x ys) → P x × All P ys
  unfolding insort
  insort-All P x [] h = h
  insort-All P x (y ∷ ys) h = ground (arith, insort-All P x ys)

  insort_all-All :
      (P : W → Type 0) (xs done : List W) → All P (insort_all xs done) → All P xs × All P done
  unfolding insort_all
  insort_all-All P [] done h = (tt, h)
  insort_all-All P (x ∷ xs) done h =
      let (hs, hd) = insort_all-All P xs (insort x done) h in
      let (hx, hd') = insort-All P x done hd in ((hx, hs), hd')

  -- What holds of the sorted values holds of the values.
  pub sorted-All : (P : W → Type 0) (xs : List W) → All P (sorted xs) → All P xs
  unfolding sorted
  sorted-All P xs h = (insort_all-All P xs [] h).0

  length-insort : (x : W) (ys : List W) → length (insort x ys) ≡ suc (length ys)
  unfolding insort
  length-insort x [] = refl
  length-insort x (y ∷ ys) = ground (arith, length-insort x ys)

  length-insort_all : (xs done : List W) → length (insort_all xs done) ≡ length xs + length done
  unfolding insort_all
  length-insort_all [] done = omega arith
  length-insort_all (x ∷ xs) done =
      omega (arith, length-insort_all xs (insort x done), length-insort x done)

  pub length-sorted : (xs : List W) → length (sorted xs) ≡ length xs
  unfolding sorted
  length-sorted xs = omega (arith, length-insort_all xs [])

module _ {W : Type 0} (float : Float W) (Good : W → Type 0) (laws : IsOrdered float Good) where
  -- No value of the list is less than `x`.
  abbrev pub IsBelow : W → List W → Type 0
  IsBelow x = All (λ y. float.lt y x ≡ false)

  abbrev pub IsAscending : List W → Type 0
  IsAscending [] = Unit
  IsAscending (x ∷ xs) = IsBelow x xs × IsAscending xs

  insort-Good : (x : W) (ys : List W) → Good x → All Good ys → All Good (insort float.lt x ys)
  unfolding insort
  insort-Good x [] gx gs = (gx, tt)
  insort-Good x (y ∷ ys) gx (gy, gs) = ground (arith, insort-Good x ys)

  IsBelow-trans :
      (x y : W) (ys : List W)
      → Good x
      → Good y
      → All Good ys
      → float.lt y x ≡ false
      → IsBelow y ys
      → IsBelow x ys
  IsBelow-trans x y [] gx gy gs h below = tt
  IsBelow-trans x y (z ∷ zs) gx gy (gz, gs) h (hz, hs) =
      (laws.le_trans x y z gx gy gz h hz, IsBelow-trans x y zs gx gy gs h hs)

  insort-IsBelow :
      (w x : W) (ys : List W)
      → float.lt x w ≡ false
      → IsBelow w ys
      → IsBelow w (insort float.lt x ys)
  unfolding insort
  insort-IsBelow w x [] h hs = (h, tt)
  insort-IsBelow w x (y ∷ ys) h (hy, hs) = ground (arith, insort-IsBelow w x ys)

  insort-IsAscending :
      (x : W) (ys : List W)
      → Good x
      → All Good ys
      → IsAscending ys
      → IsAscending (insort float.lt x ys)
  unfolding insort
  insort-IsAscending x [] gx gs h = (tt, tt)
  insort-IsAscending x (y ∷ ys) gx (gy, gs) (hy, hs) = elim (Bool-cases (float.lt x y)) [
    | inl before ↦
        let le : float.lt y x ≡ false = laws.lt_asymm x y gx gy before in
        rw before ((le, IsBelow-trans x y ys gx gy gs le hy), (hy, hs))
    | inr behind ↦ rw behind (insort-IsBelow y x ys behind hy, insort-IsAscending x ys gx gs hs)
  ]

  insort_all-IsAscending :
      (xs done : List W)
      → All Good xs
      → All Good done
      → IsAscending done
      → IsAscending (insort_all float.lt xs done)
  unfolding insort_all
  insort_all-IsAscending [] done gs gd h = h
  insort_all-IsAscending (x ∷ xs) done (gx, gs) gd h =
      insort_all-IsAscending xs (insort float.lt x done) gs (insort-Good x done gx gd)
        (insort-IsAscending x done gx gd h)

  pub sorted-IsAscending : (xs : List W) → All Good xs → IsAscending (sorted float.lt xs)
  unfolding sorted
  sorted-IsAscending xs gs = insort_all-IsAscending xs [] gs tt tt

  insort_all-Good :
      (xs done : List W) → All Good xs → All Good done → All Good (insort_all float.lt xs done)
  unfolding insort_all
  insort_all-Good [] done gs gd = gd
  insort_all-Good (x ∷ xs) done (gx, gs) gd =
      insort_all-Good xs (insort float.lt x done) gs (insort-Good x done gx gd)

  irreflexive : (a : W) → Good a → float.lt a a ≡ false
  irreflexive a g = elim (Bool-cases (float.lt a a)) [
    | inl less ↦ laws.lt_asymm a a g g less
    | inr fails ↦ fails
  ]

  -- In an ascending list an earlier value is not greater than a later one.
  pub IsAscending-get :
      (xs : List W) (i j : ℕ) {a b : W}
      → All Good xs
      → IsAscending xs
      → i ≤ j
      → get_elem? xs i ≡ some a
      → get_elem? xs j ≡ some b
      → float.lt b a ≡ false
  IsAscending-get [] i j gs h le ea eb = cc
  IsAscending-get (x ∷ xs) zero zero (gx, gs) h le ea eb =
      rw (← some_inj ea, ← some_inj eb) (irreflexive x gx)
  IsAscending-get (x ∷ xs) zero (suc j) gs (hx, hs) le ea eb =
      rw (← some_inj ea) (All-get (λ y. float.lt y x ≡ false) xs j hx eb)
  IsAscending-get (x ∷ xs) (suc i) zero gs h le ea eb = absurd (omega arith)
  IsAscending-get (x ∷ xs) (suc i) (suc j) (gx, gs) (hx, hs) le ea eb =
      IsAscending-get xs i j gs hs (omega arith) ea eb

  pub sorted-Good : (xs : List W) → All Good xs → All Good (sorted float.lt xs)
  unfolding sorted
  sorted-Good xs gs = insort_all-Good xs [] gs tt

  -- A value of an ascending list is not less than its first one, and not greater than its last one.
  pub IsAscending-first :
      (xs : List W) {a : W}
      → All Good xs
      → IsAscending xs
      → get_elem? xs 0 ≡ some a
      → All (λ y. float.lt y a ≡ false) xs
  IsAscending-first xs {a} gs h e =
      All-of_get (λ y. float.lt y a ≡ false) xs
        (λ i b eb. IsAscending-get xs 0 i gs h (omega arith) e eb)

  pub IsAscending-last :
      (xs : List W) {b : W}
      → All Good xs
      → IsAscending xs
      → get_elem? xs (length xs - 1) ≡ some b
      → All (λ y. float.lt b y ≡ false) xs
  IsAscending-last xs {b} gs h e =
      All-of_get (λ y. float.lt b y ≡ false) xs
        λ i a ea.
          let bound = get_elem?-lt xs i ea in
          IsAscending-get xs i (length xs - 1) gs h (omega arith) ea e
