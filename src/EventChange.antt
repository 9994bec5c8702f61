-- ===== src/EventChange.antt =====
-- benchmark/robflex_event_change/robflex_event_change.py: commands from standard input that set and
-- clear event bits through the daemon. Its `robflex_api` is the copy beside it, which is byte for byte
-- src/python/robflex_api.py.
pub mod Lines
pub mod Loop
use pmu_roboflex.Prelude.{
  ℕ, ◌≡◌, refl, Bool, true, false, ◌||◌, Option, none, some, List, [], ◌∷◌, ◌++◌, Text, codes,
  text_beq, starts_with, if◌then◌else◌, All,
}
use pmu_roboflex.Prelude.Int.{ℤ, pos}
use pmu_roboflex.Prelude.Decimal.{parse_int}
use pmu_roboflex.Prelude.Words.{split, strip, lower}
use pmu_roboflex.Client.{Net, Client, fresh, robflex_cleanup}
use pmu_roboflex.Client.Api.{robflex_apply_event, robflex_cancel_event}

abbrev pub event_names : List Text
event_names =
    codes "obstacle_dense"
    ∷ codes "pedestrian_dense"
    ∷ codes "high_speed"
    ∷ codes "cruise_normal"
    ∷ codes "stationary"
    ∷ codes "interaction"
    ∷ codes "awaiting_command"
    ∷ codes "emergency_stop"
    ∷ []

-- One constructor for each print.
pub data Printed : Type 0 where
  banner usage apply_usage cancel_usage unknown_command interrupted : Printed
  apply_result cancel_result : ℤ → Printed

pub record Shell : Type 0 where
  pub client : Client
  pub printed : List Printed

abbrev pub say : Printed → Shell → Shell
say p s = record s { printed = s.printed ++ p ∷ [] }

-- An `int` that fails gives the default.
unfoldable pub parse_int_or : Text → ℤ → ℤ
parse_int_or t default = elim (parse_int t) [ some n ↦ n | none ↦ default ]

unfoldable pub apply_on : Net → Text → ℤ → ℤ → Shell → Shell
apply_on net name timeout strength s =
    let (ret, c) = robflex_apply_event net name timeout strength s.client in
    say (apply_result ret) (record s { client = c })

unfoldable pub cancel_on : Net → Text → ℤ → Shell → Shell
cancel_on net name strength s =
    let (ret, c) = robflex_cancel_event net name strength s.client in
    say (cancel_result ret) (record s { client = c })

-- The words behind `apply`.
unfoldable pub handle_apply : Net → List Text → Shell → Shell
handle_apply net [] s = say apply_usage s
handle_apply net (name ∷ []) s = apply_on net name (pos 0) (pos 1) s
handle_apply net (name ∷ timeout ∷ []) s =
    apply_on net name (parse_int_or timeout (pos 0)) (pos 1) s
handle_apply net (name ∷ timeout ∷ strength ∷ _) s =
    apply_on net name (parse_int_or timeout (pos 0)) (parse_int_or strength (pos 1)) s

-- The words behind `cancel`.
unfoldable pub handle_cancel : Net → List Text → Shell → Shell
handle_cancel net [] s = say cancel_usage s
handle_cancel net (name ∷ []) s = cancel_on net name (pos 1) s
handle_cancel net (name ∷ strength ∷ _) s = cancel_on net name (parse_int_or strength (pos 1)) s

unfoldable pub is_quit : Text → Bool
is_quit cmd = text_beq cmd (codes "quit") || text_beq cmd (codes "exit") || text_beq cmd (codes "q")

unfoldable pub is_help : Text → Bool
is_help cmd = text_beq cmd (codes "help") || text_beq cmd (codes "?")

unfoldable pub dispatch : Net → Text → List Text → Shell → Bool × Shell
dispatch net cmd rest s =
    if is_quit cmd
    then (false, s)
    else if is_help cmd
    then (true, say usage s)
    else if text_beq cmd (codes "apply")
    then (true, handle_apply net rest s)
    else if text_beq cmd (codes "cancel")
    then (true, handle_cancel net rest s)
    else (true, say unknown_command s)

unfoldable pub handle_parts : Net → List Text → Shell → Bool × Shell
handle_parts net [] s = (true, s)
handle_parts net (cmd ∷ rest) s = dispatch net (lower cmd) rest s

-- `false` means that the main loop is to end.
unfoldable pub handle_line : Net → Text → Shell → Bool × Shell
handle_line net line s = handle_parts net (split line) s

-- What reading standard input gives: lines, and perhaps an interrupt. The list ends with the input.
pub data Input : Type 0 where
  line : Text → Input
  interrupt : Input

-- A line that begins with `#` is skipped.
unfoldable pub handle_raw : Net → Text → Shell → Bool × Shell
handle_raw net raw s =
    let text = strip raw in
    if starts_with (codes "#") text then (true, s) else handle_line net text s

unfoldable pub loop : Net → List Input → Shell → Shell
loop net [] s = s
loop net (interrupt ∷ _) s = say interrupted s
loop net (line raw ∷ inputs) s =
    let (goes_on, s') = handle_raw net raw s in
    elim goes_on [ true ↦ loop net inputs s' | false ↦ s' ]

-- The return value and the state at the exit.
unfoldable pub main : Net → List Input → ℕ × Shell
main net inputs =
    let s = loop net inputs (record { client = fresh; printed = banner ∷ [] }) in
    (0, record s { client = robflex_cleanup s.client })
