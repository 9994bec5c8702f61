-- ===== src/Examples/Messages.antt =====
-- Messages of src/python/robflex_api.py to the daemon.
use pmu_roboflex.Prelude.{
  ℕ, ◌+◌, ◌≡◌, ◌⊎◌, refl, none, some, List, [], ◌∷◌, ◌++◌, Text, codes, All, length, ◌==◌,
  if◌then◌else◌,
}
use pmu_roboflex.Prelude.Int.{pos}
use pmu_roboflex.Json.{Object}
use pmu_roboflex.Client.{Net, fresh, success, send_command_to_daemon}
use pmu_roboflex.Client.Api.{Formatting, Formatted, formatted, type_error, log_payload}
use pmu_roboflex.Client.Delivery.{IsHanded, IsUnsent, send_command_to_daemon-cases}
use pmu_roboflex.Client.Session.{Call, set_scheduler, log_message, apply_event, cleanup, run}
use pmu_roboflex.Client.Session.Sockets.{IsAccounted, run-IsAccounted}
use pmu_roboflex.Client.Session.Payloads.{IsWellSent, run-IsWellSent}

-- The second datagram is refused.
abbrev net : Net
net = record {
  socket = λ n. some (3 + n);
  sendto = λ n fd bytes address. if n == 1 then none else some (pos (length bytes));
  gettid = pos 42;
}

-- Arguments are texts; `%` appends the first and refuses two.
abbrev pub percent : Text → List Text → Formatted
percent message [] = formatted message
percent message (a ∷ []) = formatted (message ++ a)
percent message (a ∷ b ∷ _) = type_error

abbrev pub texts : Formatting Text
texts = record { percent = percent; format = λ message args. formatted message }

abbrev quoted : Object
quoted = log_payload (pos 7) (codes "a \"b\"},\\ 1\n")

send_command_to_daemon-cases_example :
    ((fd : ℕ) × IsHanded net quoted fresh fd (send_command_to_daemon net quoted fresh))
    ⊎ IsUnsent net fresh (send_command_to_daemon net quoted fresh)
send_command_to_daemon-cases_example = send_command_to_daemon-cases net quoted fresh

quoted_succeeds : (send_command_to_daemon net quoted fresh).0 ≡ success
unfolding send_command_to_daemon
quoted_succeeds = refl

abbrev calls : List (Call Text)
calls =
    set_scheduler (pos 0) (pos 1) (pos 50)
    ∷ log_message (pos 0) (codes "at ") (codes "x" ∷ [])
    ∷ log_message (pos 0) (codes "at ") (codes "x" ∷ codes "y" ∷ [])
    ∷ cleanup
    ∷ apply_event (codes "high_speed") (pos 10) (pos 1)
    ∷ []

run-IsAccounted_example : IsAccounted (run texts net calls fresh)
run-IsAccounted_example = run-IsAccounted texts net calls fresh refl

run-IsWellSent_example : All IsWellSent (run texts net calls fresh).sent
run-IsWellSent_example = run-IsWellSent texts net calls fresh tt
