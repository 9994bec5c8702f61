-- ===== src/Client/Session.antt =====
-- A thread's use of the API: any calls in any order, on one thread-local socket.
pub mod Steps
pub mod Sockets
pub mod Payloads
use pmu_roboflex.Prelude.{Option, none, some, List, [], ◌∷◌, Text}
use pmu_roboflex.Prelude.Int.{ℤ}
use pmu_roboflex.Json.{Object}
use pmu_roboflex.Client.{Net, Client, robflex_cleanup}
use pmu_roboflex.Client.Api.{
  Formatting, Formatted, formatted, type_error, other_error, format_message, cut_to_log_size,
  own_tid, scheduler_payload, priority_payload, log_payload, time_cost_payload, apply_payload,
  cancel_payload, robflex_set_scheduler, robflex_set_priority, robflex_log_message,
  robflex_update_ctrl_time_cost, robflex_apply_event, robflex_cancel_event,
}

pub data Call (Arg : Type 0) : Type 0 where
  set_scheduler : ℤ → ℤ → ℤ → Call Arg
  set_priority : ℤ → ℤ → Call Arg
  log_message : ℤ → Text → List Arg → Call Arg
  update_ctrl_time_cost : ℤ → ℤ → Call Arg
  apply_event : Text → ℤ → ℤ → Call Arg
  cancel_event : Text → ℤ → Call Arg
  cleanup : Call Arg

module _ {Arg : Type 0} (formatting : Formatting Arg) (net : Net) where
  -- The state that a call leaves, whatever it returns or raises.
  unfoldable pub perform : Call Arg → Client → Client
  perform (set_scheduler tid policy priority) c =
      (robflex_set_scheduler net tid policy priority c).1
  perform (set_priority tid priority) c = (robflex_set_priority net tid priority c).1
  perform (log_message tid message args) c =
      (robflex_log_message formatting net tid message args c).1
  perform (update_ctrl_time_cost tid value) c = (robflex_update_ctrl_time_cost net tid value c).1
  perform (apply_event name timeout strength) c =
      (robflex_apply_event net name timeout strength c).1
  perform (cancel_event name strength) c = (robflex_cancel_event net name strength c).1
  perform cleanup c = robflex_cleanup c

  unfoldable pub run : List (Call Arg) → Client → Client
  run [] c = c
  run (call ∷ calls) c = run calls (perform call c)

  -- The payload that a call sends, if it sends one.
  unfoldable pub payload : Call Arg → Option Object
  payload (set_scheduler tid policy priority) =
      some (scheduler_payload (own_tid net tid) policy priority)
  payload (set_priority tid priority) = some (priority_payload (own_tid net tid) priority)
  payload (log_message tid message args) = elim (format_message formatting message args) [
    | formatted t ↦ some (log_payload tid (cut_to_log_size t))
    | type_error ↦ none
    | other_error ↦ none
  ]
  payload (update_ctrl_time_cost tid value) = some (time_cost_payload (own_tid net tid) value)
  payload (apply_event name timeout strength) = some (apply_payload name timeout strength)
  payload (cancel_event name strength) = some (cancel_payload name strength)
  payload cleanup = none
