-- ===== src/Contexts/Attach.antt =====
-- src/robflex_api.c: the functions that attach a context to an event by its name, remove it, and ask for
-- its policy. `event_map` is the table that each takes and returns.
pub mod Replay
use pmu_roboflex.Prelude.{
  ℕ, zero, suc, ◌+◌, ◌-◌, ◌≡◌, refl, Bool, Option, none, some, List, [], ◌∷◌, Text, if◌then◌else◌,
  ltb, ◌==◌,
}
use pmu_roboflex.Prelude.Int.{ℤ, pos, negsuc}
use pmu_roboflex.Events.{robflex_get_event_idx}
use pmu_roboflex.Contexts.{
  Table, success, failure, robflex_event_table_upsert, robflex_event_table_erase,
  robflex_event_table_get_ctx,
}
use pmu_roboflex.Contexts.Types.{RunPolicy, policy_number, UAuxData, LocalContext}

-- A uint32_t as an int.
abbrev pub int_of_uint32 : ℕ → ℤ
int_of_uint32 n = if ltb n 2147483648 then pos n else negsuc (4294967295 - n)

-- The index of a name, unless the name is NULL or ROBFLEX_EVENT_NONE is its index.
unfoldable pub event_of : Option Text → Option ℤ
unfolding robflex_get_event_idx
event_of none = none
event_of (some event_name) =
    let event_idx = robflex_get_event_idx (some event_name) in
    if event_idx == 0 then none else some (pos event_idx)

-- The members that the initialiser does not name are zero.
abbrev pub new_context : RunPolicy → UAuxData → ℕ → LocalContext
new_context epolicy aux level = record {
  policy = epolicy;
  aux = aux;
  level = int_of_uint32 level;
  cycles_num = 0;
  avg_timecost_ns = 0;
}

abbrev pub EventMap : Type 0
EventMap = Table LocalContext

unfoldable pub attach_at : Option ℤ → LocalContext → EventMap → ℤ × EventMap
unfolding robflex_event_table_upsert
attach_at none ctx event_map = (failure, event_map)
attach_at (some event_idx) ctx event_map = robflex_event_table_upsert event_map event_idx ctx

unfoldable pub robflex_attach_context_for_event :
    Option Text → RunPolicy → UAuxData → ℕ → EventMap → ℤ × EventMap
unfolding event_of attach_at
robflex_attach_context_for_event event_name epolicy aux level =
    attach_at (event_of event_name) (new_context epolicy aux level)

unfoldable pub dettach_at : Option ℤ → EventMap → ℤ × EventMap
unfolding robflex_event_table_erase
dettach_at none event_map = (failure, event_map)
dettach_at (some event_idx) event_map = robflex_event_table_erase event_map event_idx

unfoldable pub robflex_dettach_context_for_event : Option Text → EventMap → ℤ × EventMap
unfolding event_of dettach_at
robflex_dettach_context_for_event event_name = dettach_at (event_of event_name)

abbrev pub policy_of : Option LocalContext → ℤ
policy_of none = failure
policy_of (some ctx) = pos (policy_number ctx.policy)

unfoldable pub policy_at : Option ℤ → EventMap → ℤ
unfolding robflex_event_table_get_ctx
policy_at none event_map = failure
policy_at (some event_idx) event_map = policy_of (robflex_event_table_get_ctx event_map event_idx)

unfoldable pub robflex_get_policy_for_event : Option Text → EventMap → ℤ
unfolding event_of policy_at
robflex_get_policy_for_event event_name = policy_at (event_of event_name)

-- A use of the functions.
pub data Use : Type 0 where
  attach : Option Text → RunPolicy → UAuxData → ℕ → Use
  dettach : Option Text → Use
  get_policy : Option Text → Use

unfoldable pub perform : Use → EventMap → ℤ × EventMap
unfolding robflex_attach_context_for_event robflex_dettach_context_for_event
    robflex_get_policy_for_event
perform (attach event_name epolicy aux level) event_map =
    robflex_attach_context_for_event event_name epolicy aux level event_map
perform (dettach event_name) event_map = robflex_dettach_context_for_event event_name event_map
perform (get_policy event_name) event_map =
    (robflex_get_policy_for_event event_name event_map, event_map)

-- What a sequence of uses returns, and the table that it leaves.
unfoldable pub run : List Use → EventMap → List ℤ × EventMap
unfolding perform
run [] event_map = ([], event_map)
run (u ∷ uses) event_map =
    let (ret, event_map') = perform u event_map in
    let (rets, last) = run uses event_map' in (ret ∷ rets, last)
