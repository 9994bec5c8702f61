-- ===== src/Examples/Contexts.antt =====
-- The attached contexts (inc/robflex_def.h, src/robflex_api.c) at concrete tables.
use pmu_roboflex.Prelude.{
  ℕ, ◌≡◌, ◌⊎◌, refl, Bool, true, false, none, some, List, [], ◌∷◌, codes, arith,
}
use pmu_roboflex.Prelude.Int.{ℤ, pos, negsuc}
use pmu_roboflex.Contexts.{
  Entry, Table, robflex_event_table_init, robflex_event_table_upsert, robflex_event_table_get_ctx,
}
use pmu_roboflex.Contexts.Types.{LocalContext, yielding, predetermined, UAuxData}
use pmu_roboflex.Contexts.Slots.{used}
use pmu_roboflex.Contexts.Laws.{IsTable, IsStored, IsFull, upsert_refines}
use pmu_roboflex.Contexts.Attach.{EventMap, Use, attach, dettach, get_policy, run}
use pmu_roboflex.Contexts.Attach.Replay.{replay, attach_session}

-- Entries whose contexts are numbers: two in use, at indices 3 and 5.
abbrev entry : ℤ → Bool → ℕ → Entry ℕ
entry i b c = record { event_idx = i; in_use = b; ctx = c }

abbrev two : Table ℕ
two = record {
  count = pos 2;
  entries =
      entry (pos 3) true 30
      ∷ entry (pos 0) false 0
      ∷ entry (pos 5) true 50
      ∷ entry (pos 0) false 0
      ∷ entry (pos 0) false 0
      ∷ entry (pos 0) false 0
      ∷ entry (pos 0) false 0
      ∷ entry (pos 0) false 0
      ∷ [];
}

abbrev IsAny : ℤ → Type 0
IsAny i = Unit

two-IsTable : IsTable IsAny two
unfolding used
two-IsTable = record {
  whole = refl;
  distinct = ((refl, tt), (tt, tt));
  indices = omega arith;
  counted = refl;
}

upsert_refines_example :
    IsTable IsAny (robflex_event_table_upsert two (pos 4) 40).1
    × (IsStored two (pos 4) 40 (robflex_event_table_upsert two (pos 4) 40)
        ⊎ IsFull two (pos 4) (robflex_event_table_upsert two (pos 4) 40))
upsert_refines_example = upsert_refines IsAny two (pos 4) 40 two-IsTable tt refl

abbrev aux : UAuxData
aux = record {
  target_lat = 1000000;
  start_time = 0;
  hist_ncycle = 0;
  used_ncycle = 0;
  lat_bias = pos 0;
  total_latency = 0;
  used_latency = 0;
}

abbrev blank : LocalContext
blank = record { policy = yielding; aux = aux; level = pos 0; cycles_num = 0; avg_timecost_ns = 0 }

abbrev free : Entry LocalContext
free = record { event_idx = pos 0; in_use = false; ctx = blank }

abbrev empty : EventMap
empty = record {
  count = pos 0;
  entries = free ∷ free ∷ free ∷ free ∷ free ∷ free ∷ free ∷ free ∷ [];
}

abbrev uses : List Use
uses =
    attach (some (codes "high_speed")) predetermined aux 2
    ∷ get_policy (some (codes "high_speed"))
    ∷ dettach (some (codes "stationary"))
    ∷ attach (some (codes "unknown")) yielding aux 1
    ∷ dettach (some (codes "high_speed"))
    ∷ get_policy (some (codes "high_speed"))
    ∷ []

attach_session_example :
    ((run uses (robflex_event_table_init empty)).0 ≡ (replay uses (λ j. none)).0)
    × ((j : ℤ)
        → robflex_event_table_get_ctx (run uses (robflex_event_table_init empty)).1 j
          ≡ (replay uses (λ i. none)).1 j)
attach_session_example = attach_session uses empty refl

-- The second get_policy, the dettach of an event without a context and the unknown name give -1.
uses_return :
    (run uses (robflex_event_table_init empty)).0
    ≡ pos 0 ∷ pos 1 ∷ negsuc 0 ∷ negsuc 0 ∷ pos 0 ∷ negsuc 0 ∷ []
unfolding run robflex_event_table_init
uses_return = refl
