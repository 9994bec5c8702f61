-- ===== src/CpuBench.antt =====
-- benchmark/cpu-benchmark/cpu-benchmark.py: how the operations are shared among the workers and counted.
-- The time that a worker measures is the clock's, and the pool hands back the results in any order.
pub mod Shares
use pmu_roboflex.Prelude.{ℕ, zero, suc, ◌+◌, ◌/◌, ◌≡◌, List, [], ◌∷◌, ◌++◌, map}
use pmu_roboflex.Float.{Float}

-- `for _ in range(chunk_size)`, with the arithmetic that is thrown away left out.
unfoldable pub count_ops : ℕ → ℕ → ℕ
count_ops zero total_ops = total_ops
count_ops (suc rounds) total_ops = count_ops rounds (total_ops + 1)

module _ {W : Type 0} where
  -- The rounded time of the worker, which the clock gives, and its operations.
  unfoldable pub multicore_worker : W → ℕ → W × ℕ
  multicore_worker seconds chunk_size = (seconds, count_ops chunk_size 0)

  -- The loop over the results, in the order in which they come.
  unfoldable pub gather : List (W × ℕ) → List W → ℕ → List W × ℕ
  gather [] results total_ops = (results, total_ops)
  gather ((avg, ops) ∷ more) results total_ops = gather more (results ++ avg ∷ []) (total_ops + ops)

-- The tasks of the pool, all with the same chunk, and what they give: each in a time that `seconds` gives,
-- in the order in which they end, which `order` says by their numbers.
unfoldable pub work : {W : Type 0} → (ℕ → W) → ℕ → List ℕ → List (W × ℕ)
unfolding multicore_worker
work seconds chunk_size order = map (λ i. multicore_worker (seconds i) chunk_size) order

-- `chunk_size = start_benchmark // num_cores`.
unfoldable pub chunk_of : ℕ → ℕ → ℕ
chunk_of start_benchmark num_cores = start_benchmark / num_cores

-- The multi-core part of the script: `results` and `total_ops`.
unfoldable pub multicore : {W : Type 0} → (ℕ → W) → ℕ → ℕ → List ℕ → List W × ℕ
unfolding gather work chunk_of
multicore seconds start_benchmark num_cores order =
    gather (work seconds (chunk_of start_benchmark num_cores) order) [] 0
