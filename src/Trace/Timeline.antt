-- ===== src/Trace/Timeline.antt =====
-- benchmark/thread_switch_ebpf/plot.py, draw_timeline: the rectangles and ticks of a log that is drawn
-- whole.
pub mod Drawn
use pmu_roboflex.Prelude.{
  ℕ, ◌≡◌, Bool, true, false, ◌&&◌, Option, none, some, List, [], ◌∷◌, ◌++◌, Text, codes,
  if◌then◌else◌,
}
use pmu_roboflex.Prelude.Int.{ℤ, ◌-ℤ◌}
use pmu_roboflex.Float.{Float}
use pmu_roboflex.Float.Sorting.{sorted}
use pmu_roboflex.Trace.Parse.{Entry}
use pmu_roboflex.Trace.Segments.{Segment, Drawing, is_start, is_tick, key_lt, stopped}
use pmu_roboflex.Trace.Merged.{Rectangle, style_of}

module _ {W : Type 0} (float : Float W) where
  abbrev pub append_whole : W → W → Text → Drawing W → Drawing W
  append_whole start ms task d = record d {
    segments = d.segments ++ record { start = start; dur = float.sub ms start; task = task } ∷ [];
  }

  unfoldable pub draw_entry : W → Entry → Drawing W → Drawing W
  unfolding stopped
  draw_entry ms entry d =
      if is_start entry
      then (let d' =
            if float.lt d.last_end ms then append_whole d.last_end ms (codes "other") d else d in
          record d' { active = some (ms, entry.comm) })
      else elim (stopped float entry d.active) [
        | some from ↦ record (append_whole from ms entry.comm d) { last_end = ms; active = none }
        | none ↦ if is_tick entry then record d { ticks = d.ticks ++ ms ∷ [] } else d
      ]

  unfoldable pub draw_all : ℤ → List Entry → Drawing W → Drawing W
  unfolding draw_entry
  draw_all start_ts [] d = d
  draw_all start_ts (entry ∷ entries) d =
      draw_all start_ts entries (draw_entry (float.millis (entry.ts -ℤ start_ts)) entry d)

  unfoldable pub rectangles_of : List (Segment W) → List (Rectangle W)
  rectangles_of [] = []
  rectangles_of (s ∷ segments) =
      record { left = s.start; width = s.dur; style = style_of s.task } ∷ rectangles_of segments

  -- The rectangles and the ticks; `none` is the IndexError of an empty log.
  unfoldable pub draw_timeline : List Entry → Option (List (Rectangle W) × List W)
  draw_timeline [] = none
  draw_timeline (entry ∷ logs) =
      let d =
        draw_all entry.ts (sorted key_lt (entry ∷ logs))
          (record { segments = []; ticks = []; last_end = float.whole 0; active = none }) in
      some (rectangles_of d.segments, d.ticks)
