-- ===== src/Daemon/Waker.antt =====
-- src/server.c: the thread of the daemon that wakes a throttled thread when the processor is idle. It runs
-- with the lowest scheduling; a reading is that of its own processor time, one in each round.
pub mod Rate
use pmu_roboflex.Prelude.{ℕ, ◌+◌, ◌≡◌, refl, Bool, List, [], ◌∷◌, if◌then◌else◌, ltb, leb}
use pmu_roboflex.Prelude.Word64.{sub64, add64}

abbrev pub idle_wake_wait_for_ns : ℕ
idle_wake_wait_for_ns = 5000

abbrev pub cpu_gap_threshold : ℕ
cpu_gap_threshold = 3000

pub record Waker : Type 0 where
  pub lasting_cpu_time : ℕ
  pub last_cpu_time : ℕ
  -- the calls of futex_wake_one
  pub wakes : ℕ

-- The time without a gap, with the new reading.
unfoldable pub lasting : ℕ → Waker → ℕ
lasting now_cpu w =
    let delta = sub64 now_cpu w.last_cpu_time in
    if ltb delta cpu_gap_threshold then add64 w.lasting_cpu_time delta else 0

unfoldable pub round : ℕ → Waker → Waker
unfolding lasting
round now_cpu w =
    if leb idle_wake_wait_for_ns (lasting now_cpu w)
    then record { lasting_cpu_time = 0; last_cpu_time = now_cpu; wakes = w.wakes + 1 }
    else record { lasting_cpu_time = lasting now_cpu w; last_cpu_time = now_cpu; wakes = w.wakes }

unfoldable pub rounds : List ℕ → Waker → Waker
unfolding round
rounds [] w = w
rounds (now_cpu ∷ readings) w = rounds readings (round now_cpu w)

-- The thread from its first reading on.
unfoldable pub idle_waker_thread : ℕ → List ℕ → Waker
unfolding rounds
idle_waker_thread start readings =
    rounds readings (record { lasting_cpu_time = 0; last_cpu_time = start; wakes = 0 })
