-- ===== src/CpuBench/Shares.antt =====
-- The total of the operations of the workers (benchmark/cpu-benchmark/cpu-benchmark.py).
use native.Mathlib.Nat.{mod-lt, mod-add-div', mul_comm}
use pmu_roboflex.Prelude.{
  ℕ, zero, suc, ◌+◌, ◌*◌, ◌/◌, ◌≤◌, ◌<◌, ◌≡◌, refl, sym, ap, ◌∙◌, map, append-nil, append_assoc,
  List, [], ◌∷◌, ◌++◌, length, arith,
}
use pmu_roboflex.CpuBench.{count_ops, multicore_worker, gather, work, chunk_of, multicore}

count_ops-add : (rounds total_ops : ℕ) → count_ops rounds total_ops ≡ total_ops + rounds
unfolding count_ops
count_ops-add zero total_ops = omega arith
count_ops-add (suc rounds) total_ops = omega (arith, count_ops-add rounds (total_ops + 1))

shares : (s n : ℕ) → 0 < n → (0 + n * (s / n) ≤ s) × (s < 0 + n * (s / n) + n)
shares s n h = (
  omega (arith, mod-lt s h, mod-add-div' s n, mul_comm n (s / n)),
  omega (arith, mod-lt s h, mod-add-div' s n, mul_comm n (s / n)),
)

module _ {W : Type 0} (seconds : ℕ → W) where
  gather-cons :
      (chunk_size i : ℕ) (workers : List ℕ) (results : List W) (total_ops : ℕ)
      → gather (work seconds chunk_size (i ∷ workers)) results total_ops
        ≡ gather
            (work seconds chunk_size workers)
            (results ++ seconds i ∷ [])
            (total_ops + count_ops chunk_size 0)
  unfolding gather work multicore_worker
  gather-cons chunk_size i workers results total_ops = refl

  gather-work :
      (chunk_size : ℕ) (workers : List ℕ) (results : List W) (total_ops : ℕ)
      → (gather (work seconds chunk_size workers) results total_ops).1
        ≡ total_ops + length workers * chunk_size
  gather-work chunk_size [] results total_ops = unfold gather work in omega arith
  gather-work chunk_size (i ∷ workers) results total_ops = rw gather-cons (
      ground (
        arith,
        count_ops-add chunk_size 0,
        gather-work chunk_size workers (results ++ seconds i ∷ [])
            (total_ops + count_ops chunk_size 0),
      ))

  gather-times :
      (chunk_size : ℕ) (order : List ℕ) (results : List W) (total_ops : ℕ)
      → (gather (work seconds chunk_size order) results total_ops).0 ≡ results ++ map seconds order
  gather-times chunk_size [] results total_ops = unfold gather work in sym (append-nil results)
  gather-times chunk_size (i ∷ order) results total_ops = rw gather-cons (
      gather-times chunk_size order (results ++ seconds i ∷ []) (total_ops + count_ops chunk_size 0)
      ∙ append_assoc results (seconds i ∷ []) (map seconds order))

  -- If each of at least one core ends one task, in whatever order, the script has the time of each in
  -- that order, and the operations that it counts are as many as the single core does, less the rest of
  -- the division by the number of cores: at most `start_benchmark`, and fewer than one operation for
  -- each core is missing.
  pub multicore-shares :
      (start_benchmark num_cores : ℕ) (order : List ℕ)
      → 0 < num_cores
      → length order ≡ num_cores
      → ((multicore seconds start_benchmark num_cores order).0 ≡ map seconds order)
        × ((multicore seconds start_benchmark num_cores order).1 ≤ start_benchmark)
        × (start_benchmark < (multicore seconds start_benchmark num_cores order).1 + num_cores)
  unfolding multicore chunk_of
  multicore-shares start_benchmark num_cores order some_core each =
      let chunk = start_benchmark / num_cores in
      let total : (gather (work seconds chunk order) [] 0).1 ≡ 0 + num_cores * chunk =
        gather-work chunk order [] 0 ∙ ap (λ (n : ℕ). 0 + n * chunk) each in
      let (few, enough) = shares start_benchmark num_cores some_core in
      (gather-times chunk order [] 0, omega arith, omega arith)
