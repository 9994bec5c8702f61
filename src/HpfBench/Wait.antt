-- ===== src/HpfBench/Wait.antt =====
-- The waiting loop of `run_bench`, with its time limit (benchmark/xsched_hpf_shmm/run_bench.py).
use mathlib.Core.HLevel.{⊥_prop}
use mathlib.Core.List.{Mem, not-mem-nil, mem-cons, mem-append_left, mem-append_right, mem-cons_self}
use mathlib.Core.Logic.Or
use native.Mathlib.Decide.{ℕ_discrete}
use pmu_roboflex.Prelude.{
  ℕ, zero, suc, ◌+◌, ◌<◌, ◌≡◌, ◌↔◌, refl, sym, subst, Bool, true, false, not, ◌&&◌, Bool-cases, inl,
  inr, Option, none, some, List, [], ◌∷◌, ◌++◌, All, All-append, arith, if◌then◌else◌,
}

-- When the script looks at its processes: in round k of the loop, before the terminations, and after
-- the second of grace.
pub data Moment : Type 0 where
  round : ℕ → Moment
  at_timeout after_grace : Moment

-- What the clock and the processes do.
pub record World : Type 0 where
  -- `time.time() - start < duration_sec` at the head of round k
  pub in_time : ℕ → Bool
  -- `p.poll() is None` of process i
  pub running : Moment → ℕ → Bool

pub data Signal : Type 0 where
  terminate kill : ℕ → Signal

pub data Ending : Type 0 where
  all_done : ℕ → Ending
  timed_out : ℕ → Ending

-- What the elements of a list do not meet is none of them.
not_mem : {A : Type 0} (P : A → Type 0) (a : A) (xs : List A) → All P xs → ¬ P a → ¬ Mem a xs
not_mem P a [] h n m = not-mem-nil m
not_mem P a (x ∷ xs) (hx, hs) n m =
    Or.elim ⊥_prop (mem-cons.0 m) (λ e. n (subst P (sym e) hx)) (λ k. not_mem P a xs hs n k)

module _ (world : World) where
  -- `all(p.poll() is not None for …)` over the processes below `n`.
  unfoldable pub all_finished : Moment → ℕ → Bool
  all_finished m zero = true
  all_finished m (suc n) = not (world.running m n) && all_finished m n

  -- The rounds from `k` on; `none` means that the fuel ran out.
  unfoldable pub wait : ℕ → ℕ → ℕ → Option Ending
  wait zero k n = none
  wait (suc fuel) k n = elim (world.in_time k) [
    | false ↦ some (timed_out k)
    | true ↦ elim (all_finished (round k) n) [
      | true ↦ some (all_done k)
      | false ↦ wait fuel (k + 1) n
    ]
  ]

  -- A signal to each of the processes below `n` that still runs, in order.
  unfoldable pub signal_running : (ℕ → Signal) → Moment → ℕ → List Signal
  signal_running make m zero = []
  signal_running make m (suc n) =
      signal_running make m n ++ (if world.running m n then make n ∷ [] else [])

  -- The `else` of the loop: only a loop that ran out of time comes here.
  unfoldable pub signals : Ending → ℕ → List Signal
  unfolding signal_running
  signals (all_done k) n = []
  signals (timed_out k) n =
      signal_running terminate at_timeout n ++ signal_running kill after_grace n

  wait_late :
      (fuel k n : ℕ) → world.in_time k ≡ false → (e : Ending) × (wait (suc fuel) k n ≡ some e)
  unfolding wait
  wait_late fuel k n h = (timed_out k, rw (h, wait))

  wait_done :
      (fuel k n : ℕ)
      → world.in_time k ≡ true
      → all_finished (round k) n ≡ true
      → wait (suc fuel) k n ≡ some (all_done k)
  unfolding wait
  wait_done fuel k n h d = rw (h, d, wait)

  wait_more :
      (fuel k n : ℕ)
      → world.in_time k ≡ true
      → all_finished (round k) n ≡ false
      → wait (suc fuel) k n ≡ wait fuel (k + 1) n
  unfolding wait
  wait_more fuel k n h d = rw (h, d, wait)

  wait-total :
      (d k j n : ℕ)
      → k + d ≡ j
      → world.in_time j ≡ false
      → (e : Ending) × (wait (suc d) k n ≡ some e)
  wait-total zero k j n e late = let same : k ≡ j = omega arith in wait_late 0 k n (rw same late)
  wait-total (suc d) k j n e late = elim (Bool-cases (world.in_time k)) [
    | inr over ↦ wait_late (suc d) k n over
    | inl on ↦ elim (Bool-cases (all_finished (round k) n)) [
      | inl done ↦ (all_done k, wait_done (suc d) k n on done)
      | inr more ↦ rw (wait_more (suc d) k n on more) (wait-total d (k + 1) j n (omega arith) late)
    ]
  ]

  -- The loop ends: if the clock passes the limit at some round, that many rounds and one more are
  -- enough, whatever the processes do.
  pub wait_ends : (n j : ℕ) → world.in_time j ≡ false → (e : Ending) × (wait (suc j) 0 n ≡ some e)
  wait_ends n j late = wait-total j 0 j n (omega arith) late

  -- What holds when the loop has ended in a way.
  abbrev pub Ended : Ending → ℕ → Type 0
  Ended (all_done k) n = all_finished (round k) n ≡ true
  Ended (timed_out k) n = world.in_time k ≡ false

  wait-Ended : (fuel k n : ℕ) (e : Ending) → wait fuel k n ≡ some e → Ended e n
  unfolding wait
  wait-Ended zero k n e h = cc
  wait-Ended (suc fuel) k n e h = ground (arith, wait-Ended fuel (k + 1) n e)

  all_finished-get :
      (m : Moment) (n i : ℕ) → all_finished m n ≡ true → i < n → world.running m i ≡ false
  unfolding all_finished
  all_finished-get m zero i h lt = absurd (omega arith)
  all_finished-get m (suc n) i h lt = elim (ℕ_discrete i n) [
    | yes same ↦ rw same (ground arith)
    | no other ↦ all_finished-get m n i (ground arith) (omega arith)
  ]

  signal_running-suc :
      (make : ℕ → Signal) (m : Moment) (n : ℕ)
      → signal_running make m (suc n)
        ≡ signal_running make m n ++ (if world.running m n then make n ∷ [] else [])
  unfolding signal_running
  signal_running-suc make m n = refl

  signal_running-mem :
      (make : ℕ → Signal) (m : Moment) (n i : ℕ)
      → i < n
      → world.running m i ≡ true
      → Mem (make i) (signal_running make m n)
  unfolding signal_running
  signal_running-mem make m zero i lt h = absurd (omega arith)
  signal_running-mem make m (suc n) i lt h = elim (ℕ_discrete i n) [
    | yes same ↦
        rw same (rw (rw same at h) (mem-append_right (signal_running make m n) mem-cons_self))
    | no other ↦ mem-append_left _ (signal_running-mem make m n i (omega arith) h)
  ]

  -- The process of a signal runs when the signal is sent.
  abbrev pub IsJustified : Signal → Type 0
  IsJustified (terminate i) = world.running at_timeout i ≡ true
  IsJustified (kill i) = world.running after_grace i ≡ true

  signal_running-IsJustified :
      (make : ℕ → Signal) (m : Moment) (n : ℕ)
      → ((i : ℕ) → world.running m i ≡ true → IsJustified (make i))
      → All IsJustified (signal_running make m n)
  signal_running-IsJustified make m zero h = unfold signal_running in tt
  signal_running-IsJustified make m (suc n) h = rw signal_running-suc (
      All-append IsJustified (signal_running make m n) _ (signal_running-IsJustified make m n h)
        (last (world.running m n) refl))
    where
      last : (b : Bool) → world.running m n ≡ b → All IsJustified (if b then make n ∷ [] else [])
      last true e = (h n e, tt)
      last false e = tt

  -- A loop that breaks has found every process ended, and then no signal is sent.
  pub wait_all_done :
      (fuel n k i : ℕ)
      → wait fuel 0 n ≡ some (all_done k)
      → i < n
      → (world.running (round k) i ≡ false) × (signals (all_done k) n ≡ [])
  wait_all_done fuel n k i h lt = (
    all_finished-get (round k) n i (wait-Ended fuel 0 n (all_done k) h) lt,
    unfold signals in refl,
  )

  -- A signal is sent to a process only if one that stands in `signals` is justified.
  timed_out-IsJustified : (n k : ℕ) → All IsJustified (signals (timed_out k) n)
  unfolding signals
  timed_out-IsJustified n k =
      All-append IsJustified _ _ (signal_running-IsJustified terminate at_timeout n (λ i h. h))
        (signal_running-IsJustified kill after_grace n (λ i h. h))

  justified :
      (s : Signal) (b : Bool) (n k : ℕ)
      → (IsJustified s → b ≡ true)
      → Mem s (signals (timed_out k) n)
      → b ≡ true
  justified s true n k h m = refl
  justified s false n k h m = absurd (
      not_mem IsJustified s _ (timed_out-IsJustified n k) (λ j. let e : false ≡ true = h j in cc) m)

  -- When the time has run out, a process is terminated exactly if it runs then, and killed exactly if it
  -- runs after the second of grace.
  pub signals_timed_out :
      (n k i : ℕ)
      → i < n
      → (Mem (terminate i) (signals (timed_out k) n) ↔ (world.running at_timeout i ≡ true))
        × (Mem (kill i) (signals (timed_out k) n) ↔ (world.running after_grace i ≡ true))
  signals_timed_out n k i lt = (
    (
      justified (terminate i) (world.running at_timeout i) n k (λ h. h),
      λ stop.
          unfold signals in mem-append_left _ (signal_running-mem terminate at_timeout n i lt stop),
    ),
    (
      justified (kill i) (world.running after_grace i) n k (λ h. h),
      λ grace.
          unfold signals in mem-append_right _ (signal_running-mem kill after_grace n i lt grace),
    ),
  )
