-- ===== src/Binding.antt =====
-- src/python/pmu_tick_api.py: the binding of the scheduling library through CFFI. The library is a
-- parameter: what it answers to a call of a C function. CFFI itself is not modelled beyond the kinds of
-- values that it accepts for a parameter.
pub mod Types
pub mod Loading
pub mod Prototypes
pub mod Expected
pub mod Made
use pmu_roboflex.Prelude.{
  ℕ, ◌≡◌, refl, Bool, true, false, not, Option, none, some, ◌>>=◌, List, [], ◌∷◌, Text, codes,
  if◌then◌else◌,
}
use pmu_roboflex.Prelude.Int.{ℤ, is_zero}
use pmu_roboflex.Prelude.Utf8.{encode_utf8}
use pmu_roboflex.Client.Api.{Formatting, Formatted, formatted, type_error, other_error}

-- An event name: `str | bytes`.
pub data Name : Type 0 where
  text bytes : Text → Name

-- A cdata of the union `uAuxData`, or a pointer to one.
pub data AuxData (Aux : Type 0) : Type 0 where
  pointer value : Aux → AuxData Aux

-- What is handed to a C function; a context is a `LocalContext *`, which may be None.
pub data CArg (Aux : Type 0) (Context : Type 0) : Type 0 where
  number : ℤ → CArg Aux Context
  c_bytes : Text → CArg Aux Context
  aux : Aux → CArg Aux Context
  context : Option Context → CArg Aux Context

-- A call of a function of the library.
pub record CCall (Aux : Type 0) (Context : Type 0) : Type 0 where
  pub function : Text
  pub args : List (CArg Aux Context)

-- The functions of the binding.
pub data Call (Aux : Type 0) (Context : Type 0) (Arg : Type 0) : Type 0 where
  set_scheduler : ℤ → ℤ → ℤ → Call Aux Context Arg
  set_priority : ℤ → ℤ → Call Aux Context Arg
  log_message : ℤ → Text → List Arg → Call Aux Context Arg
  update_ctrl_time_cost : ℤ → ℤ → Call Aux Context Arg
  create_event delete_event : Name → Call Aux Context Arg
  apply_event : Name → ℤ → ℤ → Call Aux Context Arg
  cancel_event : Name → ℤ → Call Aux Context Arg
  attach_context_for_event : Name → ℤ → AuxData Aux → ℤ → Call Aux Context Arg
  dettach_context_for_event get_policy_for_event : Name → Call Aux Context Arg
  test_event : ℤ → Call Aux Context Arg
  init_local_context set_cycles_for_tick : ℤ → Call Aux Context Arg
  clear_time_budget : Call Aux Context Arg
  set_time_for_throttle set_as_immediate : ℤ → Call Aux Context Arg
  set_as_latency_flick : ℤ → ℤ → Call Aux Context Arg
  add_runcycle : ℤ → Call Aux Context Arg
  shot_on_latency : Call Aux Context Arg
  switch_context switch_context_block : Option Context → Option Context → Call Aux Context Arg
  system_busy_degree : Call Aux Context Arg

-- `none` is a UnicodeEncodeError.
unfoldable pub as_c_utf8 : Name → Option Text
as_c_utf8 (bytes b) = some b
as_c_utf8 (text t) = encode_utf8 t

-- `data[0] if td.kind == "pointer" else data`.
unfoldable pub udata_of : {Aux : Type 0} → AuxData Aux → Aux
udata_of (pointer u) = u
udata_of (value u) = u

abbrev pub formatted_text : Formatted → Option Text
formatted_text (formatted t) = some t
formatted_text type_error = none
formatted_text other_error = none

-- `(fmt % args) if args else fmt`; an exception goes to the caller.
unfoldable pub message_of :
    {Arg : Type 0} → (Text → List Arg → Formatted) → Text → List Arg → Option Text
message_of percent fmt [] = some fmt
message_of percent fmt (a ∷ args) = formatted_text (percent fmt (a ∷ args))

module _ {Aux : Type 0} {Context : Type 0} where
  abbrev pub call : Text → List (CArg Aux Context) → Option (CCall Aux Context)
  call function args = some (record { function = function; args = args })

  unfoldable pub on_name : Text → Name → List (CArg Aux Context) → Option (CCall Aux Context)
  unfolding as_c_utf8
  on_name function name args = do encoded ← as_c_utf8 name; call function (c_bytes encoded ∷ args)

  unfoldable pub on_message : ℤ → Option Text → Option (CCall Aux Context)
  on_message tid message = do
    msg ← message
    encoded ← encode_utf8 msg
    call (codes "robflex_log_message") (number tid ∷ c_bytes encoded ∷ [])

module _ {Aux : Type 0} {Context : Type 0} {Arg : Type 0}
    (percent : Text → List Arg → Formatted) where
  -- The call that a function of the binding makes; `none` is an exception, and then there is no call.
  unfoldable pub c_call : Call Aux Context Arg → Option (CCall Aux Context)
  unfolding message_of on_name on_message udata_of
  c_call (set_scheduler tid policy priority) =
      call (codes "robflex_set_scheduler") (number tid ∷ number policy ∷ number priority ∷ [])
  c_call (set_priority tid priority) =
      call (codes "robflex_set_priority") (number tid ∷ number priority ∷ [])
  c_call (log_message tid fmt args) = on_message tid (message_of percent fmt args)
  c_call (update_ctrl_time_cost tid value_in_us) =
      call (codes "robflex_update_ctrl_time_cost") (number tid ∷ number value_in_us ∷ [])
  c_call (create_event name) = on_name (codes "robflex_create_event") name []
  c_call (delete_event name) = on_name (codes "robflex_delete_event") name []
  c_call (apply_event name timeout strength) =
      on_name (codes "robflex_apply_event") name (number timeout ∷ number strength ∷ [])
  c_call (cancel_event name strength) =
      on_name (codes "robflex_cancel_event") name (number strength ∷ [])
  c_call (attach_context_for_event name epolicy union level) =
      on_name (codes "robflex_attach_context_for_event") name
        (number epolicy ∷ aux (udata_of union) ∷ number level ∷ [])
  c_call (dettach_context_for_event name) =
      on_name (codes "robflex_dettach_context_for_event") name []
  c_call (get_policy_for_event name) = on_name (codes "robflex_get_policy_for_event") name []
  c_call (test_event event_idx) = call (codes "robflex_test_event") (number event_idx ∷ [])
  c_call (init_local_context mode) = call (codes "robflex_init_local_context") (number mode ∷ [])
  c_call (set_cycles_for_tick cycles) =
      call (codes "robflex_set_cycles_for_tick") (number cycles ∷ [])
  c_call clear_time_budget = call (codes "robflex_clear_time_budget") []
  c_call (set_time_for_throttle time_ns) =
      call (codes "robflex_set_time_for_throttle") (number time_ns ∷ [])
  c_call (set_as_immediate prio) = call (codes "robflex_set_as_immediate") (number prio ∷ [])
  c_call (set_as_latency_flick lat_ns base_ns) =
      call (codes "robflex_set_as_latency_flick") (number lat_ns ∷ number base_ns ∷ [])
  c_call (add_runcycle runcycle) = call (codes "robflex_add_runcycle") (number runcycle ∷ [])
  c_call shot_on_latency = call (codes "robflex_shot_on_latency") []
  c_call (switch_context new_context saved_context) =
      call (codes "robflex_switch_context") (context new_context ∷ context saved_context ∷ [])
  c_call (switch_context_block new_context saved_context) =
      call (codes "robflex_switch_context_block") (context new_context ∷ context saved_context ∷ [])
  c_call system_busy_degree = call (codes "robflex_system_busy_degree") []

pub data Returned : Type 0 where
  integer : ℤ → Returned
  boolean : Bool → Returned

-- `bool(…)` of the answer to `robflex_test_event`, and the answer itself to the others.
unfoldable pub returned : {Aux Context Arg : Type 0} → Call Aux Context Arg → ℤ → Returned
returned (test_event event_idx) ret = boolean (not (is_zero ret))
returned _ ret = integer ret

-- A function of the binding, with what the library answers; `none` is an exception.
unfoldable pub perform :
    {Aux Context Arg : Type 0}
    → (Text → List Arg → Formatted)
    → (CCall Aux Context → ℤ)
    → Call Aux Context Arg
    → Option Returned
unfolding c_call returned
perform percent lib c = do made ← c_call percent c; some (returned c (lib made))
