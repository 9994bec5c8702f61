-- ===== src/Examples/Library.antt =====
-- The binding of src/python/pmu_tick_api.py, and the workers of benchmark/cpu-benchmark/cpu-benchmark.py.
use pmu_roboflex.Prelude.{
  ℕ, ◌+◌, ◌≤◌, ◌<◌, ◌≡◌, refl, none, List, [], ◌∷◌, Text, codes, text_beq, if◌then◌else◌, arith,
}
use pmu_roboflex.Prelude.Int.{pos}
use pmu_roboflex.Client.Api.{Formatted, formatted}
use pmu_roboflex.Binding.{text, pointer, Call, attach_context_for_event}
use pmu_roboflex.Binding.Loading.{
  Opened, opened, os_error, IsSearched, lib_candidates, load_lib, load_lib-IsSearched,
}
use pmu_roboflex.CpuBench.{multicore}
use pmu_roboflex.CpuBench.Shares.{multicore-shares}

-- Only the library of the build directory is there.
abbrev dlopen : Text → Opened ℕ Text
dlopen path =
    if text_beq path (codes "/p/../../build/librobonix.so") then opened 1 else os_error path

load_lib-IsSearched_example :
    IsSearched dlopen
      (lib_candidates none (codes "/p"))
      (load_lib dlopen (lib_candidates none (codes "/p")))
load_lib-IsSearched_example = load_lib-IsSearched dlopen (lib_candidates none (codes "/p"))

abbrev percent : Text → List ℕ → Formatted
percent fmt args = formatted fmt

abbrev attach : Call ℕ ℕ ℕ
attach = attach_context_for_event (text (codes "high_speed")) (pos 2) (pointer 7) (pos 1)

abbrev seconds : ℕ → ℕ
seconds i = 2 + i

-- Three cores end in the order 2, 0, 1.
abbrev order : List ℕ
order = 2 ∷ 0 ∷ 1 ∷ []

multicore-shares_example :
    ((multicore seconds 10000 3 order).0 ≡ 4 ∷ 2 ∷ 3 ∷ [])
    × ((multicore seconds 10000 3 order).1 ≤ 10000)
    × (10000 < (multicore seconds 10000 3 order).1 + 3)
multicore-shares_example = multicore-shares seconds 10000 3 order (omega arith) refl
