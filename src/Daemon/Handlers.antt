-- ===== src/Daemon/Handlers.antt =====
-- The handlers of src/server.c on requests with and without their fields.
use pmu_roboflex.Prelude.{
  ℕ, ◌≡◌, refl, false, none, some, [], ◌∷◌, ◌++◌, Text, codes, if◌then◌else◌, arith,
}
use pmu_roboflex.Prelude.Int.{pos, negsuc, beq_int}
use pmu_roboflex.Events.{robflex_get_event_idx}
use pmu_roboflex.Daemon.{
  Item, CJson, sched_setscheduler, setpriority, sigqueue, log, Kernel, Daemon, ◌>>=◌, sched_other,
  call, set_bit, unset_bit, idx_of, set_nice, do_sched_setscheduler, do_set_priority,
  do_log_message, do_update_ctrl_time_cost, do_apply_event, do_cancel_event, run_command,
  cmd_dispatcher,
}

-- The index of an event is never -1.
ne_minus_one : (n : ℕ) → beq_int (pos n) (negsuc 0) ≡ false
ne_minus_one n = ground arith

module _ {Node : Type 0} (cjson : CJson Node) (kernel : Kernel) (root : Node) (d : Daemon) where
  abbrev pub Has : Text → Item → Type 0
  Has key item = cjson.get_object_item root key ≡ some item

  abbrev pub Misses : Text → Type 0
  Misses key = cjson.get_object_item root key ≡ none

  pub apply_whole :
      (name timeout strength : Item)
      → Has (codes "event_name") name
      → Has (codes "timeout") timeout
      → Has (codes "strength") strength
      → do_apply_event cjson kernel root d ≡ set_bit (idx_of name) d
  unfolding do_apply_event
  apply_whole name timeout strength en et es =
      rw (en, et, es, ne_minus_one (robflex_get_event_idx name.valuestring)) refl

  pub cancel_whole :
      (name strength : Item)
      → Has (codes "event_name") name
      → Has (codes "strength") strength
      → do_cancel_event cjson kernel root d ≡ unset_bit (idx_of name) d
  unfolding do_cancel_event
  cancel_whole name strength en es =
      rw (en, es, ◌>>=◌, ne_minus_one (robflex_get_event_idx name.valuestring)) refl

  pub priority_whole :
      (tid prio : Item)
      → Has (codes "tid") tid
      → Has (codes "priority") prio
      → do_set_priority cjson kernel root d ≡ call kernel (setpriority tid.valueint prio.valueint) d
  unfolding do_set_priority
  priority_whole tid prio et ep = rw (et, ep) refl

  pub time_cost_whole :
      (tid value : Item)
      → Has (codes "tid") tid
      → Has (codes "value_in_us") value
      → do_update_ctrl_time_cost cjson kernel root d
        ≡ call kernel (sigqueue tid.valueint value.valueint) d
  unfolding do_update_ctrl_time_cost
  time_cost_whole tid value et ev = rw (et, ev) refl

  pub log_whole :
      (tid message : Item)
      → Has (codes "tid") tid
      → Has (codes "message") message
      → do_log_message cjson kernel root d
        ≡ some (pos 0, record d { calls = d.calls ++ log tid.valueint message.valuestring ∷ [] })
  unfolding do_log_message
  log_whole tid message et em = rw (et, em) (unfold call in refl)

  pub scheduler_whole :
      (tid policy prio : Item)
      → Has (codes "tid") tid
      → Has (codes "policy") policy
      → Has (codes "priority") prio
      → do_sched_setscheduler cjson kernel root d ≡ (
          if beq_int policy.valueint sched_other
          then set_nice cjson kernel tid.valueint prio.valueint d
          else call kernel (sched_setscheduler tid.valueint policy.valueint prio.valueint) d)
  unfolding do_sched_setscheduler
  scheduler_whole tid policy prio et eo ep = rw (et, eo, ep) (ground arith)

  pub dispatch_whole :
      (cmd : Item) (name : Text)
      → Has (codes "cmd") cmd
      → cmd.valuestring ≡ some name
      → cmd_dispatcher cjson kernel root d ≡ run_command cjson kernel name root d
  unfolding cmd_dispatcher
  dispatch_whole cmd name ec en = rw (ec, en) refl

  -- The read of `timeout`.
  pub apply_without_timeout :
      (name strength : Item)
      → Has (codes "event_name") name
      → Has (codes "strength") strength
      → Misses (codes "timeout")
      → do_apply_event cjson kernel root d ≡ none
  unfolding do_apply_event
  apply_without_timeout name strength en es et = rw (en, et, es) refl

  pub cancel_without_strength :
      (name : Item)
      → Has (codes "event_name") name
      → Misses (codes "strength")
      → do_cancel_event cjson kernel root d ≡ none
  unfolding do_cancel_event
  cancel_without_strength name en es = rw (en, es) refl
