-- ===== src/Trace/Monitor/Switch.antt =====
-- The two eBPF handlers of benchmark/thread_switch_ebpf/monitor_task.py side by side.
use mathlib.Core.List.{Perm, perm_append_comm}
use mathlib.Core.List.Perm
use pmu_roboflex.Prelude.{ℕ, Bool, true, Bool-cases, inl, inr, ◌≡◌, refl, [], ◌==◌, All, All-append}
use pmu_roboflex.Trace.Monitor.{
  Event, Kind, start, stop, Task, submit, on_raw_tracepoint, on_kprobe,
}

-- The raw tracepoint and the kprobe submit the same events for a switch, each as often: their order is
-- the only difference, so that the log does not depend on which of them the kernel supports but for
-- the order of two lines.
pub handlers_agree :
    (target : ℕ → Bool) (cpu now : ℕ) (prev next : Task)
    → Perm (on_raw_tracepoint target cpu now prev next) (on_kprobe target cpu now prev next)
unfolding on_raw_tracepoint on_kprobe
handlers_agree target cpu now prev next = elim (Bool-cases (cpu == 0)) [
  | inl first ↦
      rw first (perm_append_comm (submit target start now next) (submit target stop now prev))
  | inr other ↦ rw other (Perm.refl [])
]

-- An event of a switch names a watched process and the time of the switch.
abbrev pub IsWatched : (ℕ → Bool) → ℕ → Event → Type 0
IsWatched target now event = (target event.pid ≡ true) × (event.ts ≡ now)

submit-IsWatched :
    (target : ℕ → Bool) (kind : Kind) (now : ℕ) (task : Task)
    → All (IsWatched target now) (submit target kind now task)
submit-IsWatched target kind now task = elim (Bool-cases (target task.tgid)) [
  | inl watched ↦ rw watched ((watched, refl), tt)
  | inr other ↦ rw other tt
]

-- The raw tracepoint submits events of watched processes only, with the time of the switch.
pub on_raw_tracepoint-IsWatched :
    (target : ℕ → Bool) (cpu now : ℕ) (prev next : Task)
    → All (IsWatched target now) (on_raw_tracepoint target cpu now prev next)
unfolding on_raw_tracepoint
on_raw_tracepoint-IsWatched target cpu now prev next = elim (Bool-cases (cpu == 0)) [
  | inl first ↦ rw first (
      All-append (IsWatched target now) (submit target start now next) (submit target stop now prev)
        (submit-IsWatched target start now next) (submit-IsWatched target stop now prev))
  | inr other ↦ rw other tt
]
