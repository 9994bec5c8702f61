-- ===== src/Trace/Merged.antt =====
-- benchmark/thread_switch_ebpf/plot_compare.py, draw_timeline_merged: how the two rows are cut to the
-- shorter one, and which ticks and intervals are drawn.
pub mod Clipped
use pmu_roboflex.Prelude.{
  ℕ, ◌≡◌, Bool, true, false, ◌||◌, List, [], ◌∷◌, ◌++◌, Text, codes, text_beq, if◌then◌else◌,
}
use pmu_roboflex.Prelude.Words.{contains}
use pmu_roboflex.Float.{Float}
use pmu_roboflex.Float.Sorting.{sorted}
use pmu_roboflex.Trace.Parse.{Entry}
use pmu_roboflex.Trace.Segments.{Segment, max_ms, minimum, maximum, build_segments}

-- The three looks of a rectangle.
pub data Style : Type 0 where
  dashed slashes crosses : Style

pub record Rectangle (W : Type 0) : Type 0 where
  pub left : W
  pub width : W
  pub style : Style

unfoldable pub style_of : Text → Style
style_of task_type =
    if text_beq task_type (codes "other")
    then dashed
    else if contains (codes "cycle1") task_type || text_beq task_type (codes "taskA")
    then slashes
    else crosses

-- One row of the picture.
pub record Row (W : Type 0) : Type 0 where
  pub rectangles : List (Rectangle W)
  pub shown : List W
  pub intervals : List (W × W × W)

module _ {W : Type 0} (float : Float W) where
  -- `max(…, default=0)` of the ends, beginning with `best`.
  abbrev pub largest : W → List (Segment W) → W
  largest best [] = best
  largest best (s ∷ segments) = largest (maximum float best (float.add s.start s.dur)) segments

  unfoldable pub data_max : List (Segment W) → W
  data_max [] = float.whole 0
  data_max (s ∷ segments) = largest (float.add s.start s.dur) segments

  -- The right end of the picture: the shorter row, at least 1 and at most 200.
  unfoldable pub x_right_of : List (Segment W) → List (Segment W) → W
  x_right_of segs_rt segs_pmu =
      minimum float (float.whole max_ms)
        (maximum float (minimum float (data_max segs_rt) (data_max segs_pmu)) (float.whole 1))

  -- One segment, cut at the right end.
  unfoldable pub draw_segment : W → Segment W → List (Rectangle W)
  draw_segment x_right s =
      let dur = minimum float s.dur (float.sub x_right s.start) in
      if float.lt s.start x_right
      then (if float.lt (float.whole 0) dur
          then record { left = s.start; width = dur; style = style_of s.task } ∷ []
          else [])
      else []

  unfoldable pub draw_row : W → List (Segment W) → List (Rectangle W)
  draw_row x_right [] = []
  draw_row x_right (s ∷ segments) = draw_segment x_right s ++ draw_row x_right segments

  abbrev pub keep_below : W → List W → List W
  keep_below x_right [] = []
  keep_below x_right (t ∷ ticks) =
      let rest = keep_below x_right ticks in if float.lt t x_right then t ∷ rest else rest

  unfoldable pub ticks_show : W → List W → List W
  ticks_show x_right ticks = keep_below x_right (sorted float.lt ticks)

  -- `draw_intervals`: the ends of each arrow and the time between them.
  unfoldable pub draw_intervals : List W → List (W × W × W)
  draw_intervals [] = []
  draw_intervals (t0 ∷ []) = []
  draw_intervals (t0 ∷ t1 ∷ ticks) = (t0, t1, float.sub t1 t0) ∷ draw_intervals (t1 ∷ ticks)

  unfoldable pub row_of : W → List (Segment W) × List W → Row W
  row_of x_right (segments, ticks) = record {
    rectangles = draw_row x_right segments;
    shown = ticks_show x_right ticks;
    intervals = draw_intervals (ticks_show x_right ticks);
  }

  -- The right end and the two rows.
  unfoldable pub draw_timeline_merged : List Entry → List Entry → W × Row W × Row W
  unfolding row_of
  draw_timeline_merged logs_rt logs_pmu =
      let rt = build_segments float logs_rt in
      let pmu = build_segments float logs_pmu in
      let x_right = x_right_of rt.0 pmu.0 in (x_right, row_of x_right rt, row_of x_right pmu)
