-- ===== src/Client/Session/Sockets.antt =====
-- The sockets of a session: src/python/robflex_api.py, `_get_socket` and `robflex_cleanup`.
use pmu_roboflex.Prelude.{ℕ, ◌≡◌, Option, none, some, List, [], ◌∷◌, ◌++◌, append-nil, arith}
use pmu_roboflex.Json.{Object}
use pmu_roboflex.Client.{Net, Client, get_socket, send_command_to_daemon, robflex_cleanup}
use pmu_roboflex.Client.Delivery.{outcome, send_command_to_daemon_lem}
use pmu_roboflex.Client.Api.{Formatting}
use pmu_roboflex.Client.Session.{Call, run}
use pmu_roboflex.Client.Session.Steps.{run_induction}

abbrev pub held : Option ℕ → List ℕ
held none = []
held (some fd) = fd ∷ []

-- The opened sockets, in order, are the closed ones and then the one at hand.
abbrev pub IsAccounted : Client → Type 0
IsAccounted c = c.opened ≡ c.closed ++ held c.sock

pub get_socket-IsAccounted :
    (net : Net) (c : Client) → IsAccounted c → IsAccounted (get_socket net c).1
unfolding get_socket
get_socket-IsAccounted net c h = ground (arith, append-nil {0} c.closed)

outcome-IsAccounted :
    (net : Net) (o : Object) (found : Option ℕ) (c : Client)
    → IsAccounted c
    → IsAccounted (outcome net o found c).1
outcome-IsAccounted net o none c h = h
outcome-IsAccounted net o (some fd) c h = h

pub send-IsAccounted :
    (net : Net) (o : Object) (c : Client)
    → IsAccounted c
    → IsAccounted (send_command_to_daemon net o c).1
send-IsAccounted net o c h = rw send_command_to_daemon_lem (
    outcome-IsAccounted net o (get_socket net c).0 (get_socket net c).1
      (get_socket-IsAccounted net c h))

pub cleanup-IsAccounted : (c : Client) → IsAccounted c → IsAccounted (robflex_cleanup c)
unfolding robflex_cleanup
cleanup-IsAccounted c h =
    ground (arith, append-nil {0} c.closed, append-nil {0} (c.closed ++ held c.sock))

module _ {Arg : Type 0} (formatting : Formatting Arg) (net : Net) where
  -- Whatever calls a thread makes, and whatever the kernel answers, if the sockets that it opened are
  -- those that it closed, in the same order, and then the one that it holds, if any, they are so
  -- afterwards.
  pub run-IsAccounted :
      (calls : List (Call Arg)) (c : Client)
      → IsAccounted c
      → IsAccounted (run formatting net calls c)
  run-IsAccounted =
      run_induction formatting net (λ call o c e h. send-IsAccounted net o c h) cleanup-IsAccounted
