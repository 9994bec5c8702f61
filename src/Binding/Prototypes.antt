-- ===== src/Binding/Prototypes.antt =====
-- The calls of the binding against the C declarations that it gives to CFFI (`ffi.cdef`).
use pmu_roboflex.Prelude.{
  ◌≡◌, Bool, true, false, ◌&&◌, Option, none, some, List, [], ◌∷◌, Text, codes, text_beq,
  if◌then◌else◌,
}
use pmu_roboflex.Binding.{CArg, number, c_bytes, aux, context, CCall}

-- The types of the parameters.
pub data CType : Type 0 where
  pid_t c_int c_string uint64_t uint32_t run_policy aux_data context_pointer : CType

-- The functions that `ffi.cdef` declares; of `robflex_log_message` the parameters in front of the dots.
abbrev pub prototypes : List (Text × List CType)
prototypes =
    (codes "robflex_set_scheduler", pid_t ∷ c_int ∷ c_int ∷ [])
    ∷ (codes "robflex_set_priority", pid_t ∷ c_int ∷ [])
    ∷ (codes "robflex_log_message", pid_t ∷ c_string ∷ [])
    ∷ (codes "robflex_update_ctrl_time_cost", pid_t ∷ c_int ∷ [])
    ∷ (codes "robflex_create_event", c_string ∷ [])
    ∷ (codes "robflex_delete_event", c_string ∷ [])
    ∷ (codes "robflex_apply_event", c_string ∷ uint64_t ∷ c_int ∷ [])
    ∷ (codes "robflex_cancel_event", c_string ∷ c_int ∷ [])
    ∷ (codes "robflex_attach_context_for_event", c_string ∷ run_policy ∷ aux_data ∷ uint32_t ∷ [])
    ∷ (codes "robflex_dettach_context_for_event", c_string ∷ [])
    ∷ (codes "robflex_get_policy_for_event", c_string ∷ [])
    ∷ (codes "robflex_test_event", c_int ∷ [])
    ∷ (codes "robflex_init_local_context", run_policy ∷ [])
    ∷ (codes "robflex_set_cycles_for_tick", uint64_t ∷ [])
    ∷ (codes "robflex_clear_time_budget", [])
    ∷ (codes "robflex_set_time_for_throttle", uint64_t ∷ [])
    ∷ (codes "robflex_set_as_immediate", uint64_t ∷ [])
    ∷ (codes "robflex_set_as_latency_flick", uint64_t ∷ uint64_t ∷ [])
    ∷ (codes "robflex_add_runcycle", uint64_t ∷ [])
    ∷ (codes "robflex_shot_on_latency", [])
    ∷ (codes "robflex_switch_context", context_pointer ∷ context_pointer ∷ [])
    ∷ (codes "robflex_switch_context_block", context_pointer ∷ context_pointer ∷ [])
    ∷ (codes "robflex_system_busy_degree", [])
    ∷ []

abbrev pub declared : Text → List (Text × List CType) → Option (List CType)
declared function [] = none
declared function ((name, types) ∷ more) =
    if text_beq function name then some types else declared function more

module _ {Aux : Type 0} {Context : Type 0} where
  -- CFFI takes a value of this kind for a parameter of this type.
  abbrev pub takes : CType → CArg Aux Context → Bool
  takes pid_t (number i) = true
  takes c_int (number i) = true
  takes uint64_t (number i) = true
  takes uint32_t (number i) = true
  takes run_policy (number i) = true
  takes c_string (c_bytes b) = true
  takes aux_data (aux u) = true
  takes context_pointer (context c) = true
  takes _ _ = false

  abbrev pub takes_all : List CType → List (CArg Aux Context) → Bool
  takes_all [] [] = true
  takes_all (t ∷ types) (a ∷ args) = takes t a && takes_all types args
  takes_all _ _ = false

  -- The function is declared, with as many parameters, of types that take the arguments.
  abbrev pub IsDeclared : CCall Aux Context → Type 0
  IsDeclared c =
      (types : List CType) × (declared c.function prototypes ≡ some types)
      × (takes_all types c.args ≡ true)
