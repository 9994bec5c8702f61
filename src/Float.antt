-- ===== src/Float.antt =====
-- Python's floats, as far as the benchmark scripts use them: an interface, since the proofs need only
-- the order of the values and not their bits.
pub mod Sorting
use pmu_roboflex.Prelude.{ℕ, ◌≡◌, Bool, true, false, Option, List, Text}
use pmu_roboflex.Prelude.Int.{ℤ}

pub record Float (W : Type 0) : Type 0 where
  -- an integer that is not negative
  pub whole : ℕ → W
  -- `a < b`
  pub lt : W → W → Bool
  pub add : W → W → W
  pub sub : W → W → W
  -- `sum(values)`, and `x / n` for a count `n`
  pub sum : List W → W
  pub divide : W → ℕ → W
  -- `float(text)`; `none` is a ValueError
  pub parse : Text → Option W
  -- `n / 1e6` for an integer `n`
  pub millis : ℤ → W

-- The order of the values that are `Good`, which are all but the NaNs: `a <= b` is that `b < a` fails.
pub record IsOrdered {W : Type 0} (float : Float W) (Good : W → Type 0) : Type 0 where
  pub lt_asymm : (a b : W) → Good a → Good b → float.lt a b ≡ true → float.lt b a ≡ false
  pub le_trans :
      (a b c : W)
      → Good a
      → Good b
      → Good c
      → float.lt b a ≡ false
      → float.lt c b ≡ false
      → float.lt c a ≡ false
