-- ===== src/Daemon/Errors.antt =====
-- Requests that src/server.c refuses.
use pmu_roboflex.Prelude.{
  ◌≡◌, refl, take, false, Option, none, some, List, [], ◌∷◌, Text, codes, text_beq, arith, ◌⊎◌, All,
  ◌∙◌,
}
use pmu_roboflex.Daemon.{
  Item, CJson, Kernel, Daemon, failure, do_sched_setscheduler, do_set_priority, do_log_message,
  do_update_ctrl_time_cost, do_apply_event, do_cancel_event, run_command, cmd_dispatcher, dispatch,
  handle_client_request, until_nul, max_received,
}
use pmu_roboflex.Daemon.Handlers.{dispatch_whole}

abbrev pub command_names : List Text
command_names =
    codes "sched_setscheduler"
    ∷ codes "set_priority"
    ∷ codes "log_message"
    ∷ codes "update_ctrl_time_cost"
    ∷ codes "apply_event"
    ∷ codes "cancel_event"
    ∷ []

module _ {Node : Type 0} (cjson : CJson Node) (root : Node) where
  abbrev Misses : Text → Type 0
  Misses key = cjson.get_object_item root key ≡ none

  -- A command is refused that is not in the chain, or lacks a field that its handler asks for.
  pub data IsRefused (name : Text) : Type 0 where
    unknown : All (λ c. text_beq name c ≡ false) command_names → IsRefused name
    scheduler :
        name ≡ codes "sched_setscheduler"
        → Misses (codes "tid") ⊎ (Misses (codes "policy") ⊎ Misses (codes "priority"))
        → IsRefused name
    priority :
        name ≡ codes "set_priority"
        → Misses (codes "tid") ⊎ Misses (codes "priority")
        → IsRefused name
    log :
        name ≡ codes "log_message"
        → Misses (codes "tid") ⊎ Misses (codes "message")
        → IsRefused name
    time_cost :
        name ≡ codes "update_ctrl_time_cost"
        → Misses (codes "tid") ⊎ Misses (codes "value_in_us")
        → IsRefused name
    apply :
        name ≡ codes "apply_event"
        → Misses (codes "event_name") ⊎ Misses (codes "strength")
        → IsRefused name
    cancel : name ≡ codes "cancel_event" → Misses (codes "event_name") → IsRefused name

  -- A request without a command, or with a refused one.
  pub data IsRejected : Type 0 where
    no_cmd : Misses (codes "cmd") → IsRejected
    bad_cmd :
        (cmd : Item) (name : Text)
        → cjson.get_object_item root (codes "cmd") ≡ some cmd
        → cmd.valuestring ≡ some name
        → IsRefused name
        → IsRejected

module _ {Node : Type 0} (cjson : CJson Node) (kernel : Kernel) (root : Node) (d : Daemon) where
  abbrev Lost : Text → Type 0
  Lost key = cjson.get_object_item root key ≡ none

  unknown_refused :
      (name : Text)
      → All (λ c. text_beq name c ≡ false) command_names
      → run_command cjson kernel name root d ≡ some (failure, d)
  unfolding run_command
  unknown_refused name (a, (b, (c, (e, (f, (g, _)))))) = rw (a, b, c, e, f, g) refl

  scheduler_refused :
      Lost (codes "tid") ⊎ (Lost (codes "policy") ⊎ Lost (codes "priority"))
      → do_sched_setscheduler cjson kernel root d ≡ some (failure, d)
  unfolding do_sched_setscheduler
  scheduler_refused h = ground arith

  priority_refused :
      Lost (codes "tid") ⊎ Lost (codes "priority")
      → do_set_priority cjson kernel root d ≡ some (failure, d)
  unfolding do_set_priority
  priority_refused h = ground arith

  log_refused :
      Lost (codes "tid") ⊎ Lost (codes "message")
      → do_log_message cjson kernel root d ≡ some (failure, d)
  unfolding do_log_message
  log_refused h = ground arith

  time_cost_refused :
      Lost (codes "tid") ⊎ Lost (codes "value_in_us")
      → do_update_ctrl_time_cost cjson kernel root d ≡ some (failure, d)
  unfolding do_update_ctrl_time_cost
  time_cost_refused h = ground arith

  apply_refused :
      Lost (codes "event_name") ⊎ Lost (codes "strength")
      → do_apply_event cjson kernel root d ≡ some (failure, d)
  unfolding do_apply_event
  apply_refused h = ground arith

  cancel_refused :
      Lost (codes "event_name") → do_cancel_event cjson kernel root d ≡ some (failure, d)
  unfolding do_cancel_event
  cancel_refused h = ground arith

  run_command_refused :
      (name : Text)
      → IsRefused cjson root name
      → run_command cjson kernel name root d ≡ some (failure, d)
  unfolding run_command
  run_command_refused name (unknown h) = unknown_refused name h
  run_command_refused name (scheduler e h) = rw e (scheduler_refused h)
  run_command_refused name (priority e h) = rw e (priority_refused h)
  run_command_refused name (log e h) = rw e (log_refused h)
  run_command_refused name (time_cost e h) = rw e (time_cost_refused h)
  run_command_refused name (apply e h) = rw e (apply_refused h)
  run_command_refused name (cancel e h) = rw e (cancel_refused h)

  cmd_dispatcher-IsRejected :
      IsRejected cjson root → cmd_dispatcher cjson kernel root d ≡ some (failure, d)
  cmd_dispatcher-IsRejected (no_cmd h) = unfold cmd_dispatcher in rw h refl
  cmd_dispatcher-IsRejected (bad_cmd cmd name ec en h) =
      dispatch_whole cjson kernel root d cmd name ec en ∙ run_command_refused name h

-- What cJSON_Parse is given of a datagram.
abbrev pub buffer_of : Text → Text
buffer_of datagram = until_nul (take max_received datagram)

-- What recvfrom may give without any effect: an error, a text that is no JSON, or a rejected request.
pub data IsIgnored {Node : Type 0} (cjson : CJson Node) : Option Text → Type 0 where
  lost : IsIgnored cjson none
  garbled :
      (datagram : Text) → cjson.parse (buffer_of datagram) ≡ none → IsIgnored cjson (some datagram)
  rejected :
      (datagram : Text) (root : Node)
      → cjson.parse (buffer_of datagram) ≡ some root
      → IsRejected cjson root
      → IsIgnored cjson (some datagram)

-- The daemon goes on, with its event bits as they were and with no call made, after an error of
-- recvfrom, after a datagram that is no JSON, and after a request that has no command, a command outside
-- the chain, or a command without a field that its handler asks for.
pub errors_change_nothing :
    {Node : Type 0} (cjson : CJson Node) (kernel : Kernel) (d : Daemon) (received : Option Text)
    → IsIgnored cjson received
    → handle_client_request cjson kernel received d ≡ some d
unfolding handle_client_request dispatch
errors_change_nothing cjson kernel d none lost = refl
errors_change_nothing cjson kernel d (some datagram) (garbled _ e) = rw e refl
errors_change_nothing cjson kernel d (some datagram) (rejected _ root e h) =
    rw (e, dispatch, cmd_dispatcher-IsRejected cjson kernel root d h) refl
