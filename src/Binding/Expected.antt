-- ===== src/Binding/Expected.antt =====
-- What each function of src/python/pmu_tick_api.py is to hand to the library, in tables of their own.
use pmu_roboflex.Prelude.{◌≡◌, Option, none, some, List, [], ◌∷◌, Text, codes}
use pmu_roboflex.Prelude.Int.{ℤ}
use pmu_roboflex.Prelude.Utf8.{encode_utf8}
use pmu_roboflex.Client.Api.{Formatted, formatted, type_error, other_error}
use pmu_roboflex.Binding.{
  Name, text, bytes, CArg, number, c_bytes, aux, context, Call, pointer, value, set_scheduler,
  set_priority, log_message, update_ctrl_time_cost, create_event, delete_event, apply_event,
  cancel_event, attach_context_for_event, dettach_context_for_event, get_policy_for_event,
  test_event, init_local_context, set_cycles_for_tick, clear_time_budget, set_time_for_throttle,
  set_as_immediate, set_as_latency_flick, add_runcycle, shot_on_latency, switch_context,
  switch_context_block, system_busy_degree,
}

-- The C function of the same name, and the numbers that it is to get, in the order of its parameters.
abbrev pub asked_of : {Aux Context Arg : Type 0} → Call Aux Context Arg → Text × List ℤ
asked_of (set_scheduler tid policy priority) =
    (codes "robflex_set_scheduler", tid ∷ policy ∷ priority ∷ [])
asked_of (set_priority tid priority) = (codes "robflex_set_priority", tid ∷ priority ∷ [])
asked_of (log_message tid fmt args) = (codes "robflex_log_message", tid ∷ [])
asked_of (update_ctrl_time_cost tid value_in_us) =
    (codes "robflex_update_ctrl_time_cost", tid ∷ value_in_us ∷ [])
asked_of (create_event name) = (codes "robflex_create_event", [])
asked_of (delete_event name) = (codes "robflex_delete_event", [])
asked_of (apply_event name timeout strength) =
    (codes "robflex_apply_event", timeout ∷ strength ∷ [])
asked_of (cancel_event name strength) = (codes "robflex_cancel_event", strength ∷ [])
asked_of (attach_context_for_event name epolicy union level) =
    (codes "robflex_attach_context_for_event", epolicy ∷ level ∷ [])
asked_of (dettach_context_for_event name) = (codes "robflex_dettach_context_for_event", [])
asked_of (get_policy_for_event name) = (codes "robflex_get_policy_for_event", [])
asked_of (test_event event_idx) = (codes "robflex_test_event", event_idx ∷ [])
asked_of (init_local_context mode) = (codes "robflex_init_local_context", mode ∷ [])
asked_of (set_cycles_for_tick cycles) = (codes "robflex_set_cycles_for_tick", cycles ∷ [])
asked_of clear_time_budget = (codes "robflex_clear_time_budget", [])
asked_of (set_time_for_throttle time_ns) = (codes "robflex_set_time_for_throttle", time_ns ∷ [])
asked_of (set_as_immediate prio) = (codes "robflex_set_as_immediate", prio ∷ [])
asked_of (set_as_latency_flick lat_ns base_ns) =
    (codes "robflex_set_as_latency_flick", lat_ns ∷ base_ns ∷ [])
asked_of (add_runcycle runcycle) = (codes "robflex_add_runcycle", runcycle ∷ [])
asked_of shot_on_latency = (codes "robflex_shot_on_latency", [])
asked_of (switch_context new_context saved_context) = (codes "robflex_switch_context", [])
asked_of (switch_context_block new_context saved_context) =
    (codes "robflex_switch_context_block", [])
asked_of system_busy_degree = (codes "robflex_system_busy_degree", [])

-- The contexts of a call in order, and the union.
abbrev pub contexts_of : {Aux Context Arg : Type 0} → Call Aux Context Arg → List (Option Context)
contexts_of (switch_context new_context saved_context) = new_context ∷ saved_context ∷ []
contexts_of (switch_context_block new_context saved_context) = new_context ∷ saved_context ∷ []
contexts_of _ = []

abbrev pub unions_of : {Aux Context Arg : Type 0} → Call Aux Context Arg → List Aux
unions_of (attach_context_for_event name epolicy (pointer u) level) = u ∷ []
unions_of (attach_context_for_event name epolicy (value u) level) = u ∷ []
unions_of _ = []

-- The string of a call: none, bytes as they are, a text to be encoded, or no text, where the format
-- raises an exception.
pub data Carried : Type 0 where
  nothing unformatted : Carried
  as_is to_encode : Text → Carried

abbrev pub of_name : Name → Carried
of_name (bytes b) = as_is b
of_name (text t) = to_encode t

abbrev pub of_format : Formatted → Carried
of_format (formatted t) = to_encode t
of_format type_error = unformatted
of_format other_error = unformatted

-- A message without arguments is taken as it is.
abbrev pub of_message : {Arg : Type 0} → (List Arg → Formatted) → Text → List Arg → Carried
of_message format fmt [] = to_encode fmt
of_message format fmt (a ∷ args) = of_format (format (a ∷ args))

module _ {Aux Context Arg : Type 0} (percent : Text → List Arg → Formatted) where
  abbrev pub carried : Call Aux Context Arg → Carried
  carried (log_message tid fmt args) = of_message (percent fmt) fmt args
  carried (create_event name) = of_name name
  carried (delete_event name) = of_name name
  carried (apply_event name timeout strength) = of_name name
  carried (cancel_event name strength) = of_name name
  carried (attach_context_for_event name epolicy union level) = of_name name
  carried (dettach_context_for_event name) = of_name name
  carried (get_policy_for_event name) = of_name name
  carried _ = nothing

-- A string that cannot be had.
abbrev pub IsPrevented : Carried → Type 0
IsPrevented nothing = ⊥
IsPrevented unformatted = Unit
IsPrevented (as_is b) = ⊥
IsPrevented (to_encode t) = encode_utf8 t ≡ none

-- The strings that are handed over for it.
abbrev pub IsCarried : Carried → List Text → Type 0
IsCarried nothing strings = strings ≡ []
IsCarried unformatted strings = ⊥
IsCarried (as_is b) strings = strings ≡ b ∷ []
IsCarried (to_encode t) strings = (b : Text) × (encode_utf8 t ≡ some b) × (strings ≡ b ∷ [])

module _ {Aux Context : Type 0} where
  abbrev pub numbers : List (CArg Aux Context) → List ℤ
  numbers [] = []
  numbers (number i ∷ args) = i ∷ numbers args
  numbers (c_bytes b ∷ args) = numbers args
  numbers (aux u ∷ args) = numbers args
  numbers (context c ∷ args) = numbers args

  abbrev pub strings : List (CArg Aux Context) → List Text
  strings [] = []
  strings (number i ∷ args) = strings args
  strings (c_bytes b ∷ args) = b ∷ strings args
  strings (aux u ∷ args) = strings args
  strings (context c ∷ args) = strings args

  abbrev pub contexts : List (CArg Aux Context) → List (Option Context)
  contexts [] = []
  contexts (number i ∷ args) = contexts args
  contexts (c_bytes b ∷ args) = contexts args
  contexts (aux u ∷ args) = contexts args
  contexts (context c ∷ args) = c ∷ contexts args

  abbrev pub unions : List (CArg Aux Context) → List Aux
  unions [] = []
  unions (number i ∷ args) = unions args
  unions (c_bytes b ∷ args) = unions args
  unions (aux u ∷ args) = u ∷ unions args
  unions (context c ∷ args) = unions args
