-- ===== src/HpfBench/Stats.antt =====
-- `stats` of benchmark/xsched_hpf_shmm/run_bench.py.
pub mod Order
use pmu_roboflex.Prelude.{
  ℕ, zero, suc, ◌-◌, ◌*◌, ◌/◌, ◌≡◌, refl, Option, none, some, List, [], ◌∷◌, length, get_elem?, ltb,
  if◌then◌else◌, ◌>>=◌,
}
use pmu_roboflex.Float.{Float}
use pmu_roboflex.Float.Sorting.{sorted}

pub record Stats (W : Type 0) : Type 0 where
  pub count : ℕ
  pub mean : W
  pub p50 : W
  pub p99 : W
  pub min : W
  pub max : W

-- `{}`, an IndexError, or the dict.
pub data Summary (W : Type 0) : Type 0 where
  no_samples index_error : Summary W
  summary : Stats W → Summary W

-- `int(n * 0.99)`. The product of floats is exact enough: below 2^46 its integer part is that of
-- 99 n / 100, since the double 0.99 is off by less than 2^-56 of itself and 99 n / 100 is an integer or
-- at least 1/100 away from the next one.
abbrev pub p99_index : ℕ → ℕ
p99_index n = n * 99 / 100

module _ {W : Type 0} (float : Float W) where
  -- The dict, from the sorted samples; `none` is an IndexError.
  unfoldable pub stats_of_sorted : List W → Option (Stats W)
  stats_of_sorted s = do
    let n = length s
    p50 ← get_elem? s (n / 2)
    p99 ← get_elem? s (if ltb 1 n then p99_index n else 0)
    min ← get_elem? s 0
    max ← get_elem? s (n - 1)
    some (record {
      count = n;
      mean = float.divide (float.sum s) n;
      p50 = p50;
      p99 = p99;
      min = min;
      max = max;
    })

  abbrev report : Option (Stats W) → Summary W
  report none = index_error
  report (some st) = summary st

  unfoldable pub stats : List W → Summary W
  unfolding stats_of_sorted
  stats [] = no_samples
  stats (x ∷ xs) = report (stats_of_sorted (sorted float.lt (x ∷ xs)))
