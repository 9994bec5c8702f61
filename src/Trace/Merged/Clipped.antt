-- ===== src/Trace/Merged/Clipped.antt =====
-- The rectangles, ticks and arrows of draw_timeline_merged against the right end of the picture
-- (benchmark/thread_switch_ebpf/plot_compare.py).
use pmu_roboflex.Prelude.{
  ℕ, zero, suc, ◌-◌, ◌≡◌, refl, some, get_elem?, true, false, Bool-cases, inl, inr, List, [], ◌∷◌,
  All, All-append, length, arith,
}
use pmu_roboflex.Float.{Float}
use pmu_roboflex.Float.Sorting.{sorted}
use pmu_roboflex.Trace.Parse.{Entry}
use pmu_roboflex.Trace.Segments.{Segment, max_ms, minimum, build_segments}
use pmu_roboflex.Trace.Segments.Window.{IsTimeline}
use pmu_roboflex.Trace.Merged.{
  Rectangle, Row, x_right_of, draw_segment, draw_row, keep_below, ticks_show, draw_intervals,
  row_of, draw_timeline_merged,
}

-- A rectangle that begins in front of the right end, is not empty, and does not pass it.
pub record IsCut {W : Type 0} (float : Float W) (x_right : W) (r : Rectangle W) : Type 0 where
  pub begins : float.lt r.left x_right ≡ true
  pub filled : float.lt (float.whole 0) r.width ≡ true
  pub fits : float.lt (float.sub x_right r.left) r.width ≡ false

-- A row: its rectangles are cut, its ticks lie in front of the right end, and its arrows are those from
-- each tick to the next one, in order, with the time between the two.
pub record IsCutRow {W : Type 0} (float : Float W) (x_right : W) (row : Row W) : Type 0 where
  pub rectangles : All (IsCut float x_right) row.rectangles
  pub shown : All (λ t. float.lt t x_right ≡ true) row.shown
  pub arrows : length row.intervals ≡ length row.shown - 1
  pub joins :
      (k : ℕ) (t0 t1 : W)
      → get_elem? row.shown k ≡ some t0
      → get_elem? row.shown (suc k) ≡ some t1
      → get_elem? row.intervals k ≡ some (t0, t1, float.sub t1 t0)

module _ {W : Type 0} (float : Float W) (laws : IsTimeline float) where
  minimum-fits : (a b : W) → float.lt b (minimum float a b) ≡ false
  minimum-fits a b = ground (arith, laws.irreflexive b)

  minimum-fits_first : (a b : W) → float.lt a (minimum float a b) ≡ false
  minimum-fits_first a b = ground (arith, laws.irreflexive a, laws.asymmetric b a)

  draw_segment-IsCut :
      (x_right : W) (s : Segment W) → All (IsCut float x_right) (draw_segment float x_right s)
  unfolding draw_segment
  draw_segment-IsCut x_right s =
      let dur = minimum float s.dur (float.sub x_right s.start) in
      elim (Bool-cases (float.lt s.start x_right)) [
        | inr beyond ↦ rw beyond tt
        | inl begins ↦ elim (Bool-cases (float.lt (float.whole 0) dur)) [
          | inr empty ↦ rw (begins, empty) tt
          | inl filled ↦
              rw (begins, filled)
                (
                  record {
                    begins = begins;
                    filled = filled;
                    fits = minimum-fits s.dur (float.sub x_right s.start);
                  },
                  tt,
                )
        ]
      ]

  draw_row-IsCut :
      (x_right : W) (segments : List (Segment W))
      → All (IsCut float x_right) (draw_row float x_right segments)
  unfolding draw_row
  draw_row-IsCut x_right [] = tt
  draw_row-IsCut x_right (s ∷ segments) =
      All-append (IsCut float x_right) (draw_segment float x_right s) _
        (draw_segment-IsCut x_right s) (draw_row-IsCut x_right segments)

  keep_below-All :
      (x_right : W) (ticks : List W)
      → All (λ t. float.lt t x_right ≡ true) (keep_below float x_right ticks)
  keep_below-All x_right [] = tt
  keep_below-All x_right (t ∷ ticks) = ground (arith, keep_below-All x_right ticks)

  length-draw_intervals : (ticks : List W) → length (draw_intervals float ticks) ≡ length ticks - 1
  unfolding draw_intervals
  length-draw_intervals [] = refl
  length-draw_intervals (t0 ∷ []) = refl
  length-draw_intervals (t0 ∷ t1 ∷ ticks) = omega (arith, length-draw_intervals (t1 ∷ ticks))

  draw_intervals-get :
      (ticks : List W) (k : ℕ) (t0 t1 : W)
      → get_elem? ticks k ≡ some t0
      → get_elem? ticks (suc k) ≡ some t1
      → get_elem? (draw_intervals float ticks) k ≡ some (t0, t1, float.sub t1 t0)
  unfolding draw_intervals
  draw_intervals-get [] k t0 t1 h h' = cc
  draw_intervals-get (t ∷ []) k t0 t1 h h' = cc
  draw_intervals-get (t ∷ t' ∷ ticks) zero t0 t1 h h' = cc
  draw_intervals-get (t ∷ t' ∷ ticks) (suc k) t0 t1 h h' =
      draw_intervals-get (t' ∷ ticks) k t0 t1 h h'

  row_of-IsCutRow :
      (x_right : W) (segments : List (Segment W)) (ticks : List W)
      → IsCutRow float x_right (row_of float x_right (segments, ticks))
  unfolding row_of ticks_show
  row_of-IsCutRow x_right segments ticks = record {
    rectangles = draw_row-IsCut x_right segments;
    shown = keep_below-All x_right (sorted float.lt ticks);
    arrows = length-draw_intervals (keep_below float x_right (sorted float.lt ticks));
    joins = draw_intervals-get (keep_below float x_right (sorted float.lt ticks));
  }

  -- Over floats with the laws of IsTimeline: the right end of the picture is at most 200, no rectangle of
  -- either row is empty or passes it, every tick that is shown lies in front of it, and the arrows of a row
  -- are those from each of its ticks to the next one, in order, with the time between the two.
  pub draw_timeline_merged-IsCutRow :
      (logs_rt logs_pmu : List Entry)
      → (float.lt (float.whole max_ms) (draw_timeline_merged float logs_rt logs_pmu).0 ≡ false)
        × IsCutRow float
            (draw_timeline_merged float logs_rt logs_pmu).0
            (draw_timeline_merged float logs_rt logs_pmu).1
        × IsCutRow float
            (draw_timeline_merged float logs_rt logs_pmu).0
            (draw_timeline_merged float logs_rt logs_pmu).2
  unfolding draw_timeline_merged x_right_of
  draw_timeline_merged-IsCutRow logs_rt logs_pmu =
      let rt = build_segments float logs_rt in
      let pmu = build_segments float logs_pmu in
      let x_right = x_right_of float rt.0 pmu.0 in
      (
        minimum-fits_first (float.whole max_ms) _,
        row_of-IsCutRow x_right rt.0 rt.1,
        row_of-IsCutRow x_right pmu.0 pmu.1,
      )
