-- ===== src/Trace/Segments.antt =====
-- benchmark/thread_switch_ebpf/plot_compare.py, build_segments and what draw_timeline_merged draws of it.
pub mod Window
pub mod Order
use pmu_roboflex.Prelude.{
  ℕ, ◌≡◌, refl, Bool, true, false, not, ◌&&◌, ◌||◌, Option, none, some, List, [], ◌∷◌, ◌++◌, Text,
  codes, text_beq, ltb, ◌+◌, if◌then◌else◌,
}
use pmu_roboflex.Prelude.Int.{ℤ, pos, ◌-ℤ◌, ltb_int, beq_int}
use pmu_roboflex.Float.{Float}
use pmu_roboflex.Float.Sorting.{sorted}
use pmu_roboflex.Trace.Parse.{Entry}

abbrev pub start_ms : ℕ
start_ms = 110

abbrev pub max_ms : ℕ
max_ms = 200

-- `(start, dur, task_type)`.
pub record Segment (W : Type 0) : Type 0 where
  pub start : W
  pub dur : W
  pub task : Text

abbrev pub is_start : Entry → Bool
is_start entry = text_beq entry.event (codes "S")

abbrev pub is_stop : Entry → Bool
is_stop entry = text_beq entry.event (codes "E")

abbrev pub is_tick : Entry → Bool
is_tick entry = text_beq entry.event (codes "TICK")

-- `1 if x[2]=='S' else 0`.
abbrev pub rank : Entry → ℕ
rank entry = if is_start entry then 1 else 0

-- The order of the keys of the sort.
unfoldable pub key_lt : Entry → Entry → Bool
key_lt a b = ltb_int a.ts b.ts || (beq_int a.ts b.ts && ltb (rank a) (rank b))

-- The variables of the loop.
pub record Drawing (W : Type 0) : Type 0 where
  pub segments : List (Segment W)
  pub ticks : List W
  pub last_end : W
  pub active : Option (W × Text)

module _ {W : Type 0} (float : Float W) where
  abbrev pub minimum : W → W → W
  minimum a b = if float.lt b a then b else a

  abbrev pub maximum : W → W → W
  maximum a b = if float.lt a b then b else a

  -- `a <= b`, for values that are no NaN.
  abbrev pub at_most : W → W → Bool
  at_most a b = not (float.lt b a)

  abbrev pub in_window : W → Bool
  in_window ms_raw =
      at_most (float.whole start_ms) ms_raw && at_most ms_raw (float.whole (start_ms + max_ms))

  abbrev pub offset : W → W
  offset ms_raw =
      if in_window ms_raw then float.sub ms_raw (float.whole start_ms) else float.whole 0

  -- A segment is kept if it is not empty.
  unfoldable pub append_segment : W → W → Text → Drawing W → Drawing W
  append_segment start ms task d =
      let dur = minimum (float.sub ms start) (float.sub (float.whole max_ms) start) in
      if float.lt (float.whole 0) dur
      then record d {
        segments = d.segments ++ record { start = start; dur = dur; task = task } ∷ [];
      }
      else d

  -- A task starts.
  unfoldable pub on_start : W → Text → Drawing W → Drawing W
  unfolding append_segment
  on_start ms_raw comm d =
      let ms = offset ms_raw in
      if at_most (float.whole start_ms) ms_raw
      then (let d' =
            if float.lt d.last_end ms then append_segment d.last_end ms (codes "other") d else d in
          record d' { active = some (ms, comm) })
      else record d { active = some (float.whole 0, comm) }

  -- The active task ends.
  unfoldable pub on_stop : W → W → Text → Drawing W → Drawing W
  unfolding append_segment
  on_stop ms_raw from comm d =
      let ms = offset ms_raw in
      if at_most (float.whole start_ms) ms_raw
      then record (append_segment (maximum from (float.whole 0)) ms comm d) {
        last_end = ms;
        active = none;
      }
      else record d { active = none }

  -- `event == 'E' and active and active[1] == comm`.
  unfoldable pub stopped : Entry → Option (W × Text) → Option W
  stopped entry none = none
  stopped entry (some (from, comm)) =
      if is_stop entry && text_beq comm entry.comm then some from else none

  unfoldable pub on_entry : W → Entry → Drawing W → Drawing W
  unfolding on_start on_stop stopped
  on_entry ms_raw entry d =
      if is_start entry then on_start ms_raw entry.comm d else elim (stopped entry d.active) [
        | some from ↦ on_stop ms_raw from entry.comm d
        | none ↦
            if is_tick entry && in_window ms_raw
            then record d { ticks = d.ticks ++ offset ms_raw ∷ [] }
            else d
      ]

  -- The loop, which breaks behind the window.
  unfoldable pub draw_entries : ℤ → List Entry → Drawing W → Drawing W
  draw_entries start_ts [] d = d
  draw_entries start_ts (entry ∷ entries) d =
      let ms_raw = float.millis (entry.ts -ℤ start_ts) in
      let rest = draw_entries start_ts entries (on_entry ms_raw entry d) in
      if float.lt (float.whole (start_ms + max_ms)) ms_raw then d else rest

  abbrev pub blank : Drawing W
  blank = record { segments = []; ticks = []; last_end = float.whole 0; active = none }

  unfoldable pub build_segments : List Entry → List (Segment W) × List W
  build_segments [] = ([], [])
  build_segments (entry ∷ logs) =
      let d = draw_entries entry.ts (sorted key_lt (entry ∷ logs)) blank in (d.segments, d.ticks)
