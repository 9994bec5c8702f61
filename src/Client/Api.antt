-- ===== src/Client/Api.antt =====
-- The public functions of src/python/robflex_api.py: each builds its payload and sends it.
use pmu_roboflex.Prelude.{
  Option, none, some, List, [], ◌∷◌, Text, codes, length, take, ltb, if◌then◌else◌,
}
use pmu_roboflex.Prelude.Int.{ℤ, is_zero}
use pmu_roboflex.Json.{str, num, Object}
use pmu_roboflex.Client.{Net, Client, max_log_size, send_command_to_daemon}

-- `if tid == 0: tid = os.gettid()`.
unfoldable pub own_tid : Net → ℤ → ℤ
own_tid net tid = if is_zero tid then net.gettid else tid

abbrev pub scheduler_payload : ℤ → ℤ → ℤ → Object
scheduler_payload tid policy priority =
    (codes "cmd", str (codes "sched_setscheduler"))
    ∷ (codes "tid", num tid)
    ∷ (codes "policy", num policy)
    ∷ (codes "priority", num priority)
    ∷ []

abbrev pub priority_payload : ℤ → ℤ → Object
priority_payload tid priority =
    (codes "cmd", str (codes "set_priority"))
    ∷ (codes "tid", num tid)
    ∷ (codes "priority", num priority)
    ∷ []

abbrev pub log_payload : ℤ → Text → Object
log_payload tid message =
    (codes "cmd", str (codes "log_message"))
    ∷ (codes "tid", num tid)
    ∷ (codes "message", str message)
    ∷ []

abbrev pub time_cost_payload : ℤ → ℤ → Object
time_cost_payload tid value_in_us =
    (codes "cmd", str (codes "update_ctrl_time_cost"))
    ∷ (codes "tid", num tid)
    ∷ (codes "value_in_us", num value_in_us)
    ∷ []

abbrev pub apply_payload : Text → ℤ → ℤ → Object
apply_payload event_name timeout strength =
    (codes "cmd", str (codes "apply_event"))
    ∷ (codes "event_name", str event_name)
    ∷ (codes "timeout", num timeout)
    ∷ (codes "strength", num strength)
    ∷ []

abbrev pub cancel_payload : Text → ℤ → Object
cancel_payload event_name strength =
    (codes "cmd", str (codes "cancel_event"))
    ∷ (codes "event_name", str event_name)
    ∷ (codes "strength", num strength)
    ∷ []

unfoldable pub robflex_set_scheduler : Net → ℤ → ℤ → ℤ → Client → ℤ × Client
unfolding send_command_to_daemon own_tid
robflex_set_scheduler net tid policy priority =
    send_command_to_daemon net (scheduler_payload (own_tid net tid) policy priority)

unfoldable pub robflex_set_priority : Net → ℤ → ℤ → Client → ℤ × Client
unfolding send_command_to_daemon own_tid
robflex_set_priority net tid priority =
    send_command_to_daemon net (priority_payload (own_tid net tid) priority)

-- What `%` or `str.format` does with a message and arguments: a text, a TypeError, or another
-- exception (ValueError, KeyError, IndexError).
pub data Formatted : Type 0 where
  formatted : Text → Formatted
  type_error other_error : Formatted

-- Python's two ways to format, over arguments of any kind.
pub record Formatting (Arg : Type 0) : Type 0 where
  pub percent : Text → List Arg → Formatted
  pub format : Text → List Arg → Formatted

abbrev pub cut_to_log_size : Text → Text
cut_to_log_size t = if ltb max_log_size (length t) then take max_log_size t else t

module _ {Arg : Type 0} (formatting : Formatting Arg) where
  -- A TypeError of `%` is answered by `str.format`, whose own exceptions go to the caller.
  unfoldable pub format_message : Text → List Arg → Formatted
  format_message message [] = formatted message
  format_message message (a ∷ args) = elim (formatting.percent message (a ∷ args)) [
    | formatted t ↦ formatted t
    | type_error ↦ formatting.format message (a ∷ args)
    | other_error ↦ other_error
  ]

  unfoldable pub send_log : Net → ℤ → Formatted → Client → Option ℤ × Client
  unfolding send_command_to_daemon
  send_log net tid (formatted t) c =
      let (ret, c') = send_command_to_daemon net (log_payload tid (cut_to_log_size t)) c in
      (some ret, c')
  send_log net tid type_error c = (none, c)
  send_log net tid other_error c = (none, c)

  -- `none` is an exception. The thread id is sent as it is given.
  unfoldable pub robflex_log_message : Net → ℤ → Text → List Arg → Client → Option ℤ × Client
  unfolding format_message send_log
  robflex_log_message net tid message args = send_log net tid (format_message message args)

unfoldable pub robflex_update_ctrl_time_cost : Net → ℤ → ℤ → Client → ℤ × Client
unfolding send_command_to_daemon own_tid
robflex_update_ctrl_time_cost net tid value_in_us =
    send_command_to_daemon net (time_cost_payload (own_tid net tid) value_in_us)

unfoldable pub robflex_apply_event : Net → Text → ℤ → ℤ → Client → ℤ × Client
unfolding send_command_to_daemon
robflex_apply_event net event_name timeout strength =
    send_command_to_daemon net (apply_payload event_name timeout strength)

unfoldable pub robflex_cancel_event : Net → Text → ℤ → Client → ℤ × Client
unfolding send_command_to_daemon
robflex_cancel_event net event_name strength =
    send_command_to_daemon net (cancel_payload event_name strength)
