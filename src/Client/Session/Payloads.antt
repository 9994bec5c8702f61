-- ===== src/Client/Session/Payloads.antt =====
-- The datagrams that a thread's calls hand to the kernel.
use pmu_roboflex.Prelude.{
  ℕ, ◌≤◌, ◌≡◌, refl, Option, none, some, List, [], ◌∷◌, Text, All, All-append, length,
  length-take-le, ltb, arith, subst, some_inj, take, if◌then◌else◌, sym,
}
use pmu_roboflex.Prelude.Int.{ℤ}
use pmu_roboflex.Json.{Object, dumps}
use pmu_roboflex.Client.{
  Net, Client, Datagram, socket_path, max_log_size, get_socket, send_command_to_daemon,
  robflex_cleanup,
}
use pmu_roboflex.Client.Delivery.{
  outcome, datagram_of, send_command_to_daemon_lem, get_socket-Acquired,
}
use pmu_roboflex.Client.Api.{
  Formatting, Formatted, formatted, type_error, other_error, format_message, cut_to_log_size,
  scheduler_payload, priority_payload, log_payload, time_cost_payload, apply_payload,
  cancel_payload,
}
use pmu_roboflex.Client.Session.{
  Call, set_scheduler, set_priority, log_message, update_ctrl_time_cost, apply_event, cancel_event,
  cleanup, payload, run,
}
use pmu_roboflex.Client.Session.Steps.{run_induction}

-- The six commands of the protocol; a log message has at most 1024 characters.
pub data IsCommand : Object → Type 0 where
  scheduler : (tid policy priority : ℤ) → IsCommand (scheduler_payload tid policy priority)
  priority : (tid prio : ℤ) → IsCommand (priority_payload tid prio)
  log :
      (tid : ℤ) (message : Text)
      → length message ≤ max_log_size
      → IsCommand (log_payload tid message)
  time_cost : (tid value : ℤ) → IsCommand (time_cost_payload tid value)
  apply : (name : Text) (timeout strength : ℤ) → IsCommand (apply_payload name timeout strength)
  cancel : (name : Text) (strength : ℤ) → IsCommand (cancel_payload name strength)

length-cut : (n : ℕ) (t : Text) → length (if ltb n (length t) then take n t else t) ≤ n
length-cut n t = ground (arith, length-take-le n t)

pub length-cut_to_log_size : (t : Text) → length (cut_to_log_size t) ≤ max_log_size
length-cut_to_log_size t = length-cut max_log_size t

log_payload-IsCommand :
    (tid : ℤ) (f : Formatted) {o : Object}
    → elim f as (λ _. Option Object) [
      | formatted t ↦ some (log_payload tid (cut_to_log_size t))
      | type_error ↦ none
      | other_error ↦ none
    ]
      ≡ some o
    → IsCommand o
log_payload-IsCommand tid (formatted t) h =
    subst IsCommand (some_inj h) (log tid (cut_to_log_size t) (length-cut_to_log_size t))
log_payload-IsCommand tid type_error h = cc
log_payload-IsCommand tid other_error h = cc

-- A datagram that spells one of the commands, for the daemon's path.
abbrev pub IsWellSent : Datagram → Type 0
IsWellSent d = (o : Object) × IsCommand o × (d.bytes ≡ dumps o) × (d.address ≡ socket_path)

module _ {Arg : Type 0} (formatting : Formatting Arg) (net : Net) where
  payload-IsCommand :
      (call : Call Arg) {o : Object} → payload formatting net call ≡ some o → IsCommand o
  unfolding payload
  payload-IsCommand (set_scheduler tid policy prio) h =
      subst IsCommand (some_inj h) (scheduler _ policy prio)
  payload-IsCommand (set_priority tid prio) h = subst IsCommand (some_inj h) (priority _ prio)
  payload-IsCommand (log_message tid message args) h =
      log_payload-IsCommand tid (format_message formatting message args) h
  payload-IsCommand (update_ctrl_time_cost tid value) h =
      subst IsCommand (some_inj h) (time_cost _ value)
  payload-IsCommand (apply_event name timeout strength) h =
      subst IsCommand (some_inj h) (apply name timeout strength)
  payload-IsCommand (cancel_event name strength) h =
      subst IsCommand (some_inj h) (cancel name strength)
  payload-IsCommand cleanup h = cc

  outcome-IsWellSent :
      (o : Object) (found : Option ℕ) (c : Client)
      → IsCommand o
      → All IsWellSent c.sent
      → All IsWellSent (outcome net o found c).1.sent
  outcome-IsWellSent o none c k h = h
  outcome-IsWellSent o (some fd) c k h =
      All-append IsWellSent c.sent (datagram_of fd o ∷ []) h ((o, k, refl, refl), tt)

  send-IsWellSent :
      (o : Object) (c : Client)
      → IsCommand o
      → All IsWellSent c.sent
      → All IsWellSent (send_command_to_daemon net o c).1.sent
  send-IsWellSent o c k h = rw send_command_to_daemon_lem (
      outcome-IsWellSent o (get_socket net c).0 (get_socket net c).1 k
        (subst (All IsWellSent) (sym (get_socket-Acquired net c).sent) h))

  cleanup-IsWellSent :
      (c : Client) → All IsWellSent c.sent → All IsWellSent (robflex_cleanup c).sent
  unfolding robflex_cleanup
  cleanup-IsWellSent c h = ground arith

  -- Whatever calls a thread makes, if the datagrams that it has handed to the kernel before are so, every
  -- datagram goes to the daemon's path and is the text of one of the six commands with its fields; a
  -- log message in it has at most 1024 characters.
  pub run-IsWellSent :
      (calls : List (Call Arg)) (c : Client)
      → All IsWellSent c.sent
      → All IsWellSent (run formatting net calls c).sent
  run-IsWellSent =
      run_induction formatting net {P = λ c. All IsWellSent c.sent}
        (λ call o c e h. send-IsWellSent o c (payload-IsCommand call e) h) cleanup-IsWellSent
