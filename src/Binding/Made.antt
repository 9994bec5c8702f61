-- ===== src/Binding/Made.antt =====
-- What each function of src/python/pmu_tick_api.py hands to the library, against Binding/Expected.
use pmu_roboflex.Prelude.{◌≡◌, Option, none, some, List, [], ◌∷◌, Text, codes}
use pmu_roboflex.Prelude.Int.{ℤ}
use pmu_roboflex.Client.Api.{Formatted}
use pmu_roboflex.Binding.{number, c_bytes, CCall, Call}
use pmu_roboflex.Binding.Prototypes.{IsDeclared}
use pmu_roboflex.Binding.Expected.{
  asked_of, contexts_of, unions_of, Carried, carried, IsCarried, numbers, strings, contexts, unions,
}

module _ {Aux : Type 0} {Context : Type 0} where
  abbrev pub Outcome : Type 0 → (CCall Aux Context → Type 0) → Option (CCall Aux Context) → Type 0
  Outcome Prevented Made none = Prevented
  Outcome Prevented Made (some made) = Made made

  abbrev Logs : (CCall Aux Context → Type 0) → ℤ → Carried → Type 0
  Logs Made tid string =
      (b : Text)
      → IsCarried string (b ∷ [])
      → Made (record { function = codes "robflex_log_message"; args = number tid ∷ c_bytes b ∷ [] })

-- A call of the function that is asked for, with its numbers and its string, as its declaration takes it.
pub record IsMade {Aux Context Arg : Type 0} (percent : Text → List Arg → Formatted)
    (c : Call Aux Context Arg) (made : CCall Aux Context) : Type 0 where
  pub declared : IsDeclared made
  pub function : made.function ≡ (asked_of c).0
  pub given : numbers made.args ≡ (asked_of c).1
  pub switched : contexts made.args ≡ contexts_of c
  pub attached : unions made.args ≡ unions_of c
  pub carries : IsCarried (carried percent c) (strings made.args)
