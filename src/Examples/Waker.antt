-- ===== src/Examples/Waker.antt =====
-- The idle waker of src/server.c on four readings, which wake a thread once.
use pmu_roboflex.Prelude.{ℕ, ◌+◌, ◌*◌, ◌≤◌, ◌<◌, List, [], ◌∷◌, arith}
use pmu_roboflex.Daemon.Waker.{idle_wake_wait_for_ns, idle_waker_thread}
use pmu_roboflex.Daemon.Waker.Rate.{HasNoGap, longest, idle_waker_thread-rate}

abbrev readings : List ℕ
readings = 3500 ∷ 6000 ∷ 8900 ∷ 9000 ∷ []

idle_waker_thread-rate_example :
    ((idle_waker_thread 1000 readings).lasting_cpu_time < idle_wake_wait_for_ns)
    × (1000
          + ((idle_waker_thread 1000 readings).wakes * idle_wake_wait_for_ns
              + (idle_waker_thread 1000 readings).lasting_cpu_time)
        ≤ (idle_waker_thread 1000 readings).last_cpu_time)
    × (HasNoGap 1000 readings
        → (idle_waker_thread 1000 readings).last_cpu_time
          ≤ 1000
            + ((idle_waker_thread 1000 readings).wakes * longest
                + (idle_waker_thread 1000 readings).lasting_cpu_time))
idle_waker_thread-rate_example = idle_waker_thread-rate 1000 readings (omega arith)
