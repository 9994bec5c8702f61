-- ===== src/Daemon/Waker/Rate.antt =====
-- How often the idle waker of src/server.c wakes a thread.
use pmu_roboflex.Prelude.{ℕ, ◌+◌, ◌-◌, ◌*◌, ◌≤◌, ◌<◌, ◌≡◌, List, [], ◌∷◌, if◌then◌else◌, ltb, arith}
use pmu_roboflex.Prelude.Word64.{u64_mod}
use pmu_roboflex.Daemon.Waker.{
  Waker, idle_wake_wait_for_ns, cpu_gap_threshold, lasting, round, rounds, idle_waker_thread,
}

-- Readings of a clock that does not go back, in 64 bits.
abbrev pub IsRising : ℕ → List ℕ → Type 0
IsRising last [] = Unit
IsRising last (r ∷ rs) = (last ≤ r) × (r < u64_mod) × IsRising r rs

-- No reading is a gap behind the one in front of it.
abbrev pub HasNoGap : ℕ → List ℕ → Type 0
HasNoGap last [] = Unit
HasNoGap last (r ∷ rs) = (r < last + cpu_gap_threshold) × HasNoGap r rs

-- The most processor time that a wake can take.
abbrev pub longest : ℕ
longest = 7998

abbrev IsCounted : Waker → Waker → Type 0
IsCounted w r =
    (r.lasting_cpu_time < idle_wake_wait_for_ns)
    × (w.last_cpu_time + (r.wakes * idle_wake_wait_for_ns + r.lasting_cpu_time)
        ≤ r.last_cpu_time + (w.wakes * idle_wake_wait_for_ns + w.lasting_cpu_time))

abbrev IsPrompt : Waker → Waker → Type 0
IsPrompt w r =
    r.last_cpu_time + (w.wakes * longest + w.lasting_cpu_time)
    ≤ w.last_cpu_time + (r.wakes * longest + r.lasting_cpu_time)

module _ (now : ℕ) (w : Waker) (h : w.last_cpu_time ≤ now) (k : now < u64_mod)
    (l : w.lasting_cpu_time < idle_wake_wait_for_ns) where
  lasting_lem : lasting now w ≡ (
      if ltb now (w.last_cpu_time + cpu_gap_threshold)
      then w.lasting_cpu_time + (now - w.last_cpu_time)
      else 0)
  unfolding lasting
  lasting_lem = ground arith

  round-IsCounted : IsCounted w (round now w)
  unfolding round
  round-IsCounted = rw lasting_lem (ground arith)

  round-IsPrompt : now < w.last_cpu_time + cpu_gap_threshold → IsPrompt w (round now w)
  unfolding round
  round-IsPrompt q = rw lasting_lem (ground arith)

  round-last : (round now w).last_cpu_time ≡ now
  unfolding round
  round-last = ground arith

rounds-IsCounted :
    (readings : List ℕ) (w : Waker)
    → IsRising w.last_cpu_time readings
    → w.lasting_cpu_time < idle_wake_wait_for_ns
    → IsCounted w (rounds readings w)
unfolding rounds
rounds-IsCounted [] w h l = (l, omega arith)
rounds-IsCounted (now ∷ readings) w (h, k, rising) l =
    let (l', once) = round-IsCounted now w h k l in
    let (low, more) =
      rounds-IsCounted readings (round now w) (rw (round-last now w h k l) rising) l' in
    (low, omega arith)

rounds-IsPrompt :
    (readings : List ℕ) (w : Waker)
    → IsRising w.last_cpu_time readings
    → HasNoGap w.last_cpu_time readings
    → w.lasting_cpu_time < idle_wake_wait_for_ns
    → IsPrompt w (rounds readings w)
unfolding rounds
rounds-IsPrompt [] w h g l = omega arith
rounds-IsPrompt (now ∷ readings) w (h, k, rising) (g, no_gap) l =
    let once = round-IsPrompt now w h k l g in
    let more : IsPrompt (round now w) (rounds readings (round now w)) =
      rounds-IsPrompt readings (round now w) (rw (round-last now w h k l) rising)
        (rw (round-last now w h k l) no_gap) (round-IsCounted now w h k l).0 in
    omega arith

-- Whatever the readings of its own processor time are, as long as they do not go back, the waker has
-- used at least 5000 ns for each wake, and what it has saved up is below that. If no reading is 3000 ns
-- or more behind the one in front of it, it has used at most 7998 ns for each wake, but for what is saved
-- up.
pub idle_waker_thread-rate :
    (start : ℕ) (readings : List ℕ)
    → IsRising start readings
    → let w = idle_waker_thread start readings in
      (w.lasting_cpu_time < idle_wake_wait_for_ns)
      × (start + (w.wakes * idle_wake_wait_for_ns + w.lasting_cpu_time) ≤ w.last_cpu_time)
      × (HasNoGap start readings
          → w.last_cpu_time ≤ start + (w.wakes * longest + w.lasting_cpu_time))
unfolding idle_waker_thread
idle_waker_thread-rate start readings rising =
    let begun : Waker = record { lasting_cpu_time = 0; last_cpu_time = start; wakes = 0 } in
    let (low, counted) = rounds-IsCounted readings begun rising (omega arith) in
    (
      low,
      omega arith,
      λ g.
          let prompt : IsPrompt begun (rounds readings begun) =
            rounds-IsPrompt readings begun rising g (omega arith) in
          omega arith,
    )
