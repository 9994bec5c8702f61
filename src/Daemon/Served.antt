-- ===== src/Daemon/Served.antt =====
-- The daemon (src/server.c) against what the commands of src/python/robflex_api.py ask for.
use pmu_roboflex.Prelude.{
  ◌≤◌, ◌≡◌, refl, some, [], ◌∷◌, ◌++◌, Text, codes, length, if◌then◌else◌, Bool-cases, inl, inr,
  append_assoc, ◌∙◌, ap,
}
use pmu_roboflex.Prelude.Int.{ℤ, pos, is_negative, beq_int}
use pmu_roboflex.Prelude.Utf8.{encode_utf8}
use pmu_roboflex.Json.{str, num, Object, dumps}
use pmu_roboflex.Client.Api.{
  scheduler_payload, priority_payload, log_payload, time_cost_payload, apply_payload,
  cancel_payload,
}
use pmu_roboflex.Client.Session.Payloads
use pmu_roboflex.Client.Session.Payloads.{IsCommand}
use pmu_roboflex.Daemon.{
  CJson, sched_setscheduler, setpriority, Kernel, Daemon, sched_other, call, set_bit, unset_bit,
  set_nice, run_command, cmd_dispatcher, dispatch, max_received, failure, ◌>>=◌,
  handle_client_request,
}
use pmu_roboflex.Daemon.Handlers.{
  apply_whole, cancel_whole, priority_whole, time_cost_whole, log_whole, scheduler_whole,
  dispatch_whole,
}
use pmu_roboflex.Daemon.Protocol.{
  member, item_of, found_item, IsPlain, ReadsObjects, received_whole, scheduler_calls, effect,
}

dispatch-some :
    {Node : Type 0} (cjson : CJson Node) (kernel : Kernel) (n : Node) (d d' : Daemon) (ret : ℤ)
    → cmd_dispatcher cjson kernel n d ≡ some (ret, d')
    → dispatch cjson kernel (some n) d ≡ some d'
dispatch-some cjson kernel n d d' ret e = unfold dispatch in rw (dispatch, e) refl

set_nice-calls :
    {Node : Type 0} (cjson : CJson Node) (kernel : Kernel) (tid prio : ℤ) (d : Daemon)
    → (ret : ℤ) × (set_nice cjson kernel tid prio d
        ≡ some (ret, record d { calls = d.calls ++ scheduler_calls kernel tid sched_other prio d }))
unfolding set_nice call
set_nice-calls cjson kernel tid prio d =
    let first = sched_setscheduler tid sched_other (pos 0) in
    let second = kernel (length (d.calls ++ first ∷ [])) (setpriority tid prio) in
    elim (Bool-cases (is_negative (kernel (length d.calls) first))) [
      | inl e ↦ (failure, rw e refl)
      | inr e ↦ elim (Bool-cases (is_negative second)) [
        | inl f ↦ (failure, rw (e, ◌>>=◌, f, append_assoc) refl)
        | inr f ↦ (pos 0, rw (e, ◌>>=◌, f, append_assoc) refl)
      ]
    ]

module _ {Node : Type 0} (cjson : CJson Node) (reads : ReadsObjects cjson) (kernel : Kernel) where
  starts :
      (o : Object) (name : Text) (d : Daemon)
      → IsPlain o
      → member (codes "cmd") o ≡ some (str name)
      → encode_utf8 name ≡ some name
      → cmd_dispatcher cjson kernel (reads.node o) d
        ≡ run_command cjson kernel name (reads.node o) d
  starts o name d p e u =
      dispatch_whole cjson kernel (reads.node o) d (item_of (str name)) name
        (reads.finds o (codes "cmd") p ∙ ap found_item e) u

  scheduler_runs :
      (tid policy prio : ℤ) (d : Daemon)
      → (ret : ℤ) × ((if beq_int policy sched_other
            then set_nice cjson kernel tid prio d
            else call kernel (sched_setscheduler tid policy prio) d)
          ≡ some (ret, record d { calls = d.calls ++ scheduler_calls kernel tid policy prio d }))
  unfolding call
  scheduler_runs tid policy prio d = elim (Bool-cases (beq_int policy sched_other)) [
    | inl e ↦ let (ret, f) = set_nice-calls cjson kernel tid prio d in (ret, rw e f)
    | inr e ↦ (kernel (length d.calls) (sched_setscheduler tid policy prio), rw e refl)
  ]

  command_runs :
      {o : Object} (k : IsCommand o) (d : Daemon)
      → IsPlain o
      → (ret : ℤ) × (cmd_dispatcher cjson kernel (reads.node o) d ≡ some (ret, effect kernel k d))
  unfolding effect run_command call set_bit unset_bit encode_utf8
  command_runs (Payloads.scheduler tid policy prio) d p =
      let o = scheduler_payload tid policy prio in
      let n = reads.node o in
      let (ret, e) = scheduler_runs tid policy prio d in
      (
        ret,
        starts o (codes "sched_setscheduler") d p refl refl
            ∙ scheduler_whole cjson kernel n d (item_of (num tid)) (item_of (num policy))
                (item_of (num prio)) (reads.finds o (codes "tid") p)
                (reads.finds o (codes "policy") p) (reads.finds o (codes "priority") p)
            ∙ e,
      )
  command_runs (Payloads.priority tid prio) d p =
      let o = priority_payload tid prio in
      let n = reads.node o in
      (
        _,
        starts o (codes "set_priority") d p refl refl
            ∙ priority_whole cjson kernel n d (item_of (num tid)) (item_of (num prio))
                (reads.finds o (codes "tid") p) (reads.finds o (codes "priority") p),
      )
  command_runs (Payloads.log tid message h) d p =
      let o = log_payload tid message in
      let n = reads.node o in
      (
        _,
        starts o (codes "log_message") d p refl refl
            ∙ log_whole cjson kernel n d (item_of (num tid)) (item_of (str message))
                (reads.finds o (codes "tid") p) (reads.finds o (codes "message") p),
      )
  command_runs (Payloads.time_cost tid value) d p =
      let o = time_cost_payload tid value in
      let n = reads.node o in
      (
        _,
        starts o (codes "update_ctrl_time_cost") d p refl refl
            ∙ time_cost_whole cjson kernel n d (item_of (num tid)) (item_of (num value))
                (reads.finds o (codes "tid") p) (reads.finds o (codes "value_in_us") p),
      )
  command_runs (Payloads.apply name timeout strength) d p =
      let o = apply_payload name timeout strength in
      let n = reads.node o in
      (
        _,
        starts o (codes "apply_event") d p refl refl
            ∙ apply_whole cjson kernel n d (item_of (str name)) (item_of (num timeout))
                (item_of (num strength)) (reads.finds o (codes "event_name") p)
                (reads.finds o (codes "timeout") p) (reads.finds o (codes "strength") p),
      )
  command_runs (Payloads.cancel name strength) d p =
      let o = cancel_payload name strength in
      let n = reads.node o in
      (
        _,
        starts o (codes "cancel_event") d p refl refl
            ∙ cancel_whole cjson kernel n d (item_of (str name)) (item_of (num strength))
                (reads.finds o (codes "event_name") p) (reads.finds o (codes "strength") p),
      )

  -- If cJSON reads the datagram of a command and finds its members, then the daemon does exactly what the
  -- command asks for, and goes on: a datagram of a command of the Python API that is at most 255 bytes
  -- long, has numbers that an int holds and texts without a NUL or a half of a surrogate pair.
  pub command_served :
      {o : Object} (k : IsCommand o) (d : Daemon)
      → IsPlain o
      → length (dumps o) ≤ max_received
      → handle_client_request cjson kernel (some (dumps o)) d ≡ some (effect kernel k d)
  unfolding handle_client_request
  command_served {o} k d p short =
      let (ret, e) = command_runs k d p in
      rw (received_whole o short, reads.parses o p)
        (dispatch-some cjson kernel (reads.node o) d (effect kernel k d) ret e)
