-- ===== src/HpfBench/Stats/Order.antt =====
-- The figures of `stats` and the samples (benchmark/xsched_hpf_shmm/run_bench.py).
use mathlib.Core.List.{Perm}
use pmu_roboflex.Prelude.{
  ℕ, suc, ◌+◌, ◌*◌, ◌-◌, ◌/◌, ap, ◌≤◌, ◌<◌, ◌≡◌, ◌≢◌, refl, ◌∙◌, false, some, List, [], ◌∷◌, All,
  length, get_elem?, get_elem?-some, ltb, if◌then◌else◌, arith,
}
use pmu_roboflex.Float.{Float, IsOrdered}
use pmu_roboflex.Float.Sorting.{
  sorted, sorted-perm, length-sorted, sorted-IsAscending, sorted-Good, IsAscending-get,
}
use pmu_roboflex.HpfBench.Stats.{Stats, no_samples, summary, p99_index, stats_of_sorted, stats}

-- The four indices of a report lie in a list of `n` samples.
indices : (n : ℕ) → 0 < n → (n / 2 < n) × ((if ltb 1 n then p99_index n else 0) < n) × (n - 1 < n)
indices n h = (omega arith, ground arith, omega arith)

-- What `stats_of_sorted` has looked up.
record Found {W : Type 0} (float : Float W) (s : List W) (st : Stats W) : Type 0 where
  count : st.count ≡ length s
  p50 : get_elem? s (length s / 2) ≡ some st.p50
  p99 : get_elem? s (if ltb 1 (length s) then p99_index (length s) else 0) ≡ some st.p99
  min : get_elem? s 0 ≡ some st.min
  max : get_elem? s (length s - 1) ≡ some st.max
  mean : st.mean ≡ float.divide (float.sum s) (length s)

module _ {W : Type 0} (float : Float W) where
  find_all :
      (s : List W)
      → 0 < length s
      → (st : Stats W) × (stats_of_sorted float s ≡ some st) × Found float s st
  find_all s h =
      let (i50, i99, imax) = indices (length s) h in
      let (a, ea) = get_elem?-some s (length s / 2) i50 in
      let (b, eb) = get_elem?-some s (if ltb 1 (length s) then p99_index (length s) else 0) i99 in
      let (c, ec) = get_elem?-some s 0 h in
      let (d, ed) = get_elem?-some s (length s - 1) imax in
      (
        record {
          count = length s;
          mean = float.divide (float.sum s) (length s);
          p50 = a;
          p99 = b;
          min = c;
          max = d;
        },
        unfold stats_of_sorted in rw (ea, eb, ec, ed),
        record { count = refl; p50 = ea; p99 = eb; min = ec; max = ed; mean = refl },
      )

  stats_cons :
      (x : W) (xs : List W)
      → (st : Stats W) × (stats float (x ∷ xs) ≡ summary st)
        × Found float (sorted float.lt (x ∷ xs)) st
  stats_cons x xs =
      let s = sorted float.lt (x ∷ xs) in
      let (st, e, found) = find_all s (omega (arith, length-sorted float.lt (x ∷ xs))) in
      (st, unfold stats in rw e, found)

  -- The report of some samples exists, also where they hold a NaN.
  pub stats-summary : (x : W) (xs : List W) → (st : Stats W) × (stats float (x ∷ xs) ≡ summary st)
  stats-summary x xs = let (st, e, _) = stats_cons x xs in (st, e)

-- The samples in ascending order: `s` holds each of them as often as `samples` does, and a later one is
-- not less than an earlier one.
pub record IsOrderOf {W : Type 0} (float : Float W) (samples s : List W) : Type 0 where
  pub same : Perm s samples
  pub ascending :
      (i j : ℕ) (a b : W)
      → i ≤ j
      → get_elem? s i ≡ some a
      → get_elem? s j ≡ some b
      → float.lt b a ≡ false

-- The figures of a report, from the samples in ascending order: the first and the last one, the one with
-- half of the number of samples in front of it, and, if there are several, the one with 99 hundredths
-- in front of it, rounded down both times; and the sum over the number.
pub record Describes {W : Type 0} (float : Float W) (samples s : List W) (st : Stats W)
    : Type 0 where
  pub order : IsOrderOf float samples s
  pub count : st.count ≡ length samples
  pub min : get_elem? s 0 ≡ some st.min
  pub p50 :
      (k : ℕ) → k * 2 ≤ length samples → length samples < k * 2 + 2 → get_elem? s k ≡ some st.p50
  pub p99 :
      (k : ℕ)
      → k * 100 ≤ length samples * 99
      → length samples * 99 < k * 100 + 100
      → get_elem? s k ≡ some st.p99
  pub max : (k : ℕ) → suc k ≡ length samples → get_elem? s k ≡ some st.max
  pub mean : st.mean ≡ float.divide (float.sum s) (length samples)

module _ {W : Type 0} (float : Float W) (Good : W → Type 0) (laws : IsOrdered float Good) where
  Found-Describes :
      (samples : List W) (st : Stats W)
      → All Good samples
      → 0 < length samples
      → Found float (sorted float.lt samples) st
      → Describes float samples (sorted float.lt samples) st
  Found-Describes samples st gs h f =
      let s = sorted float.lt samples in
      let good = sorted-Good float Good laws samples gs in
      let up = sorted-IsAscending float Good laws samples gs in
      let size = length-sorted float.lt samples in
      record {
        order = record {
          same = sorted-perm float.lt samples;
          ascending = λ i j a b le ea eb. IsAscending-get float Good laws s i j good up le ea eb;
        };
        count = f.count ∙ size;
        min = f.min;
        p50 = λ k lo hi. let at : k ≡ length s / 2 = omega arith in rw at f.p50;
        p99 = λ k lo hi.
            let at : k ≡ (if ltb 1 (length s) then p99_index (length s) else 0) = ground arith in
            rw at f.p99;
        max = λ k e. let at : k ≡ length s - 1 = omega arith in rw at f.max;
        mean = f.mean ∙ ap (float.divide (float.sum s)) size;
      }

  -- Over floats whose `Good` values are ordered (all but NaN): samples that are Good have a report unless
  -- there are none, and no index runs out of the list. It counts the samples; of the samples in ascending
  -- order, its minimum and maximum are the first and the last one, its median the one at half of the
  -- number and its 99th percentile the one at 99 hundredths of the number, both rounded down and counted
  -- from 0; and its mean is the sum of them, divided by the number.
  pub stats-Describes :
      (samples : List W)
      → samples ≢ []
      → All Good samples
      → (st : Stats W) × (stats float samples ≡ summary st)
        × (s : List W) × Describes float samples s st
  stats-Describes [] h gs = absurd (h refl)
  stats-Describes (x ∷ xs) h gs =
      let (st, e, found) = stats_cons float x xs in
      (st, e, sorted float.lt (x ∷ xs), Found-Describes (x ∷ xs) st gs (omega arith) found)

-- The report of no samples is empty.
stats_nil : {W : Type 0} (float : Float W) → stats float [] ≡ no_samples
unfolding stats
stats_nil float = refl
