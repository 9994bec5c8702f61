-- ===== src/Daemon/Fatal.antt =====
-- The requests at which src/server.c reads through a NULL pointer.
use pmu_roboflex.Prelude.{
  ◌≡◌, ◌≢◌, ◌↔◌, refl, none, some, Text, codes, text_beq, text_beq_iff, arith, inl, inr, Bool-cases,
  Option-cases, sym, ap, ◌∙◌,
}
use pmu_roboflex.Daemon.{
  Item, CJson, Kernel, Daemon, set_bit, unset_bit, call, set_nice, do_sched_setscheduler,
  do_set_priority, do_log_message, do_update_ctrl_time_cost, do_apply_event, do_cancel_event,
  run_command, cmd_dispatcher, dispatch, handle_client_request,
}
use pmu_roboflex.Daemon.Handlers.{dispatch_whole, apply_without_timeout, cancel_without_strength}
use pmu_roboflex.Daemon.Errors.{buffer_of}

module _ {Node : Type 0} (cjson : CJson Node) (root : Node) where
  abbrev Has : Text → Item → Type 0
  Has key item = cjson.get_object_item root key ≡ some item

  abbrev Misses : Text → Type 0
  Misses key = cjson.get_object_item root key ≡ none

  -- A `cmd` that is no text, an apply_event without `timeout`, a cancel_event without `strength`.
  pub data IsFatal : Type 0 where
    no_text : (cmd : Item) → Has (codes "cmd") cmd → cmd.valuestring ≡ none → IsFatal
    no_timeout :
        (cmd name strength : Item)
        → Has (codes "cmd") cmd
        → cmd.valuestring ≡ some (codes "apply_event")
        → Has (codes "event_name") name
        → Has (codes "strength") strength
        → Misses (codes "timeout")
        → IsFatal
    no_strength :
        (cmd name : Item)
        → Has (codes "cmd") cmd
        → cmd.valuestring ≡ some (codes "cancel_event")
        → Has (codes "event_name") name
        → Misses (codes "strength")
        → IsFatal

module _ {Node : Type 0} (cjson : CJson Node) (kernel : Kernel) (root : Node) (d : Daemon) where
  IsFatal-dispatcher : IsFatal cjson root → cmd_dispatcher cjson kernel root d ≡ none
  unfolding cmd_dispatcher run_command
  IsFatal-dispatcher (no_text cmd ec en) = rw (ec, en) refl
  IsFatal-dispatcher (no_timeout cmd name strength ec en ee es et) =
      dispatch_whole cjson kernel root d cmd (codes "apply_event") ec en
      ∙ apply_without_timeout cjson kernel root d name strength ee es et
  IsFatal-dispatcher (no_strength cmd name ec en ee es) =
      dispatch_whole cjson kernel root d cmd (codes "cancel_event") ec en
      ∙ cancel_without_strength cjson kernel root d name ee es

  scheduler-ne-none : do_sched_setscheduler cjson kernel root d ≢ none
  unfolding do_sched_setscheduler set_nice call
  scheduler-ne-none h = ground arith

  priority-ne-none : do_set_priority cjson kernel root d ≢ none
  unfolding do_set_priority call
  priority-ne-none h = ground arith

  log-ne-none : do_log_message cjson kernel root d ≢ none
  unfolding do_log_message call
  log-ne-none h = ground arith

  time_cost-ne-none : do_update_ctrl_time_cost cjson kernel root d ≢ none
  unfolding do_update_ctrl_time_cost call
  time_cost-ne-none h = ground arith

  -- A handler that ends the process has met a missing field.
  apply-none :
      do_apply_event cjson kernel root d ≡ none
      → (name : Item) × (strength : Item) × (cjson.get_object_item root (codes "event_name")
          ≡ some name)
        × (cjson.get_object_item root (codes "strength") ≡ some strength)
        × (cjson.get_object_item root (codes "timeout") ≡ none)
  unfolding do_apply_event set_bit
  apply-none h = elim (Option-cases (cjson.get_object_item root (codes "event_name"))) [
    | inl e ↦ absurd (ground arith)
    | inr (name, en) ↦ elim (Option-cases (cjson.get_object_item root (codes "strength"))) [
      | inl e ↦ absurd (ground arith)
      | inr (strength, es) ↦ (name, strength, en, es, ground arith)
    ]
  ]

  cancel-none :
      do_cancel_event cjson kernel root d ≡ none
      → (name : Item) × (cjson.get_object_item root (codes "event_name") ≡ some name)
        × (cjson.get_object_item root (codes "strength") ≡ none)
  unfolding do_cancel_event unset_bit
  cancel-none h = elim (Option-cases (cjson.get_object_item root (codes "event_name"))) [
    | inl e ↦ absurd (ground arith)
    | inr (name, en) ↦ (name, en, ground arith)
  ]

  module _ (cmd : Item) (ec : cjson.get_object_item root (codes "cmd") ≡ some cmd) where
    -- The chain of strcmp, from its last test to its first.
    run_command-none :
        (name : Text)
        → cmd.valuestring ≡ some name
        → run_command cjson kernel name root d ≡ none
        → IsFatal cjson root
    unfolding run_command
    run_command-none name en h = elim (Bool-cases (text_beq name (codes "apply_event"))) [
      | inl ea ↦
          let same : name ≡ codes "apply_event" = (text_beq_iff name (codes "apply_event")).0 ea in
          let (item, strength, e1, e2, e3) = apply-none (rw same at h) in
          no_timeout cmd item strength ec (en ∙ ap (λ (t : Text). some t) same) e1 e2 e3
      | inr na ↦ elim (Bool-cases (text_beq name (codes "cancel_event"))) [
        | inl ea ↦
            let same : name ≡ codes "cancel_event" =
              (text_beq_iff name (codes "cancel_event")).0 ea in
            let (item, e1, e2) = cancel-none (rw same at h) in
            no_strength cmd item ec (en ∙ ap (λ (t : Text). some t) same) e1 e2
        | inr nc ↦
            absurd
              (ground (arith, scheduler-ne-none, priority-ne-none, log-ne-none, time_cost-ne-none))
      ]
    ]

    text-none : cmd_dispatcher cjson kernel root d ≡ none → IsFatal cjson root
    text-none h = elim (Option-cases cmd.valuestring) [
      | inl e ↦ no_text cmd ec e
      | inr (name, en) ↦
          run_command-none name en (sym (dispatch_whole cjson kernel root d cmd name ec en) ∙ h)
    ]

  dispatcher-none : cmd_dispatcher cjson kernel root d ≡ none → IsFatal cjson root
  dispatcher-none h = elim (Option-cases (cjson.get_object_item root (codes "cmd"))) [
    | inl e ↦ absurd (unfold cmd_dispatcher in ground arith)
    | inr (cmd, ec) ↦ text-none cmd ec h
  ]

module _ {Node : Type 0} (cjson : CJson Node) (kernel : Kernel) (d : Daemon) where
  dispatch-none :
      (root : Node)
      → dispatch cjson kernel (some root) d ≡ none
      → cmd_dispatcher cjson kernel root d ≡ none
  unfolding dispatch
  dispatch-none root h = ground arith

  none-dispatch :
      (root : Node)
      → cmd_dispatcher cjson kernel root d ≡ none
      → dispatch cjson kernel (some root) d ≡ none
  unfolding dispatch
  none-dispatch root h = ground arith

  -- A datagram ends the daemon exactly if it is JSON and its `cmd` is no text, or it is an apply_event with
  -- an event_name and a strength but no timeout, or a cancel_event with an event_name but no strength:
  -- the daemon then reads through NULL.
  pub fatal_iff :
      (datagram : Text)
      → (handle_client_request cjson kernel (some datagram) d ≡ none)
        ↔ ((root : Node) × (cjson.parse (buffer_of datagram) ≡ some root) × IsFatal cjson root)
  unfolding handle_client_request
  fatal_iff datagram = (
    λ h. elim (Option-cases (cjson.parse (buffer_of datagram))) [
      | inl e ↦ absurd (unfold dispatch in ground arith)
      | inr (root, e) ↦
          (root, e, dispatcher-none cjson kernel root d (dispatch-none root (rw e at h)))
    ],
    λ (root, e, fatal). rw e (none-dispatch root (IsFatal-dispatcher cjson kernel root d fatal)),
  )
