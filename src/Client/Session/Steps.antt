-- ===== src/Client/Session/Steps.antt =====
-- Induction on the calls of a session (src/python/robflex_api.py): a call is a cleanup, or a send of its
-- payload if it has one.
use pmu_roboflex.Prelude.{◌≡◌, refl, subst, sym, Option, none, some, List, [], ◌∷◌}
use pmu_roboflex.Prelude.Int.{ℤ}
use pmu_roboflex.Json.{Object}
use pmu_roboflex.Client.{Net, Client, send_command_to_daemon, robflex_cleanup}
use pmu_roboflex.Client.Api.{
  Formatting, Formatted, formatted, type_error, other_error, format_message, cut_to_log_size,
  log_payload, send_log, robflex_set_scheduler, robflex_set_priority, robflex_log_message,
  robflex_update_ctrl_time_cost, robflex_apply_event, robflex_cancel_event,
}
use pmu_roboflex.Client.Session.{
  Call, set_scheduler, set_priority, log_message, update_ctrl_time_cost, apply_event, cancel_event,
  cleanup, perform, run, payload,
}

abbrev pub send_if : Net → Option Object → Client → Client
send_if net none c = c
send_if net (some o) c = (send_command_to_daemon net o c).1

abbrev pub log_payload_of : ℤ → Formatted → Option Object
log_payload_of tid (formatted t) = some (log_payload tid (cut_to_log_size t))
log_payload_of tid type_error = none
log_payload_of tid other_error = none

module _ {Arg : Type 0} (formatting : Formatting Arg) (net : Net) where
  abbrev pub by_payload : Call Arg → Client → Client
  by_payload cleanup c = robflex_cleanup c
  by_payload call c = send_if net (payload formatting net call) c

  send_log-send_if :
      (tid : ℤ) (f : Formatted) (c : Client)
      → (send_log formatting net tid f c).1 ≡ send_if net (log_payload_of tid f) c
  unfolding send_log
  send_log-send_if tid (formatted t) c = refl
  send_log-send_if tid type_error c = refl
  send_log-send_if tid other_error c = refl

  pub perform-by_payload :
      (call : Call Arg) (c : Client) → perform formatting net call c ≡ by_payload call c
  unfolding perform payload
  perform-by_payload (set_scheduler tid policy priority) c = unfold robflex_set_scheduler in refl
  perform-by_payload (set_priority tid priority) c = unfold robflex_set_priority in refl
  perform-by_payload (log_message tid message args) c =
      unfold robflex_log_message in send_log-send_if tid (format_message formatting message args) c
  perform-by_payload (update_ctrl_time_cost tid value) c =
      unfold robflex_update_ctrl_time_cost in refl
  perform-by_payload (apply_event name timeout strength) c = unfold robflex_apply_event in refl
  perform-by_payload (cancel_event name strength) c = unfold robflex_cancel_event in refl
  perform-by_payload cleanup c = refl

  module _ {P : Client → Type 0}
      (send : (call : Call Arg) (o : Object) (c : Client)
        → payload formatting net call ≡ some o
        → P c
        → P (send_command_to_daemon net o c).1)
      (close : (c : Client) → P c → P (robflex_cleanup c)) where
    send_if-keeps :
        (call : Call Arg) (found : Option Object) (c : Client)
        → payload formatting net call ≡ found
        → P c
        → P (send_if net found c)
    send_if-keeps call none c e h = h
    send_if-keeps call (some o) c e h = send call o c e h

    by_payload-keeps : (call : Call Arg) (c : Client) → P c → P (by_payload call c)
    by_payload-keeps cleanup c h = close c h
    by_payload-keeps call c h = send_if-keeps call (payload formatting net call) c refl h

    pub run_induction :
        (calls : List (Call Arg)) (c : Client) → P c → P (run formatting net calls c)
    unfolding run
    run_induction [] c h = h
    run_induction (call ∷ calls) c h =
        run_induction calls (perform formatting net call c)
          (subst P (sym (perform-by_payload call c)) (by_payload-keeps call c h))
