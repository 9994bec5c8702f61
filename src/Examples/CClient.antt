-- ===== src/Examples/CClient.antt =====
-- A thread of src/robflex_api.c whose first socket cannot be opened, and a later one could.
use pmu_roboflex.Prelude.{
  ◌≤◌, ◌≡◌, ◌⊎◌, refl, Bool, true, false, some, List, [], ◌∷◌, codes, All, if◌then◌else◌, ◌==◌, ap,
}
use pmu_roboflex.Prelude.Int.{ℤ, pos, negsuc, is_negative}
use pmu_roboflex.Json.{dumps}
use pmu_roboflex.CClient.{
  System, Sent, fresh, failed, Command, set_priority, apply_event, cancel_event, run,
}
use pmu_roboflex.CClient.Sockets.{RefusesNegative, run-one_socket}

abbrev system : System
system = record {
  gettid = pos 7;
  socket = λ n. if n == 0 then negsuc 0 else pos 3;
  sendto = λ n fd s. if is_negative fd then negsuc 0 else pos 40;
  print = λ root. some (dumps root);
}

system-RefusesNegative : RefusesNegative system
system-RefusesNegative n fd s h = ap (λ (b : Bool). is_negative (if b then negsuc 0 else pos 40)) h

abbrev commands : List Command
commands =
    set_priority (pos 0) (pos 5)
    ∷ apply_event (codes "high_speed") 1000 (pos 1)
    ∷ cancel_event (codes "high_speed") (pos 1)
    ∷ []

run-one_socket_example :
    ((run system commands fresh).1.sockets ≤ 1)
    × All (λ (s : Sent). s.fd ≡ negsuc 0) (run system commands fresh).1.sends
    × ((true ≡ false) ⊎ All (λ (r : ℤ). r ≡ failed) (run system commands fresh).0)
run-one_socket_example = run-one_socket system commands system-RefusesNegative refl
