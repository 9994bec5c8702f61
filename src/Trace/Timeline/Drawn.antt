-- ===== src/Trace/Timeline/Drawn.antt =====
-- The numbers of rectangles and ticks of draw_timeline (benchmark/thread_switch_ebpf/plot.py).
use pmu_roboflex.Prelude.{
  ℕ, suc, ◌+◌, ◌≤◌, ◌≡◌, refl, ap, Bool, true, false, Bool-cases, inl, inr, Option, none, some,
  List, [], ◌∷◌, ◌++◌, Text, codes, text_beq_iff, if◌then◌else◌, length, length-append, arith,
}
use pmu_roboflex.Prelude.Int.{ℤ, ◌-ℤ◌}
use pmu_roboflex.Float.{Float}
use pmu_roboflex.Float.Sorting.{insort, insort_all, sorted}
use pmu_roboflex.Trace.Parse.{Entry}
use pmu_roboflex.Trace.Segments.{Segment, Drawing, is_start, is_stop, is_tick, key_lt, stopped}
use pmu_roboflex.Trace.Merged.{Rectangle}
use pmu_roboflex.Trace.Timeline.{append_whole, draw_entry, draw_all, rectangles_of, draw_timeline}

abbrev tick_of : Entry → ℕ
tick_of entry = if is_tick entry then 1 else 0

-- The ticks of a log.
abbrev pub tick_count : List Entry → ℕ
tick_count [] = 0
tick_count (entry ∷ entries) = tick_of entry + tick_count entries

module _ (lt : Entry → Entry → Bool) where
  insort-tick_count :
      (x : Entry) (ys : List Entry) → tick_count (insort lt x ys) ≡ tick_of x + tick_count ys
  unfolding insort
  insort-tick_count x [] = refl
  insort-tick_count x (y ∷ ys) = elim (Bool-cases (lt x y)) [
    | inl before ↦ rw before
    | inr behind ↦ rw behind (omega (arith, insort-tick_count x ys))
  ]

  insort-length : (x : Entry) (ys : List Entry) → length (insort lt x ys) ≡ length ys + 1
  unfolding insort
  insort-length x [] = refl
  insort-length x (y ∷ ys) = elim (Bool-cases (lt x y)) [
    | inl before ↦ rw before (omega arith)
    | inr behind ↦ rw behind (omega (arith, insort-length x ys))
  ]

  insort_all-step :
      (x : Entry) (xs done : List Entry)
      → insort_all lt (x ∷ xs) done ≡ insort_all lt xs (insort lt x done)
  unfolding insort_all
  insort_all-step x xs done = refl

  insort_all-counts :
      (xs done : List Entry)
      → (tick_count (insort_all lt xs done) ≡ tick_count xs + tick_count done)
        × (length (insort_all lt xs done) ≡ length xs + length done)
  insort_all-counts [] done = unfold insort_all in (omega arith, omega arith)
  insort_all-counts (x ∷ xs) done =
      let (ticks, size) = insort_all-counts xs (insort lt x done) in
      rw insort_all-step
        (omega (arith, ticks, insort-tick_count x done), omega (arith, size, insort-length x done))

  sorted-counts :
      (xs : List Entry)
      → (tick_count (sorted lt xs) ≡ tick_count xs) × (length (sorted lt xs) ≡ length xs)
  unfolding sorted
  sorted-counts xs =
      let (ticks, size) = insort_all-counts xs [] in (omega (arith, ticks), omega (arith, size))

start_no_tick : (entry : Entry) → is_start entry ≡ true → tick_of entry ≡ 0
start_no_tick entry h =
    let same : entry.event ≡ codes "S" = (text_beq_iff entry.event (codes "S")).0 h in rw same

stop_no_tick : (entry : Entry) → is_stop entry ≡ true → tick_of entry ≡ 0
stop_no_tick entry h =
    let same : entry.event ≡ codes "E" = (text_beq_iff entry.event (codes "E")).0 h in rw same

module _ {W : Type 0} (float : Float W) where
  -- One entry adds its tick, if it is one, and at most one segment.
  record Adds (entry : Entry) (d d' : Drawing W) : Type 0 where
    ticks : length d'.ticks ≡ length d.ticks + tick_of entry
    segments : length d'.segments ≤ length d.segments + 1

  start-Adds :
      (b : Bool) (ms : W) (entry : Entry) (d : Drawing W)
      → tick_of entry ≡ 0
      → Adds entry d (record (if b then append_whole float d.last_end ms (codes "other") d else d) {
        active = some (ms, entry.comm);
      })
  start-Adds true ms entry d h = record {
    ticks = omega (arith, h);
    segments = omega (
      arith,
      length-append d.segments
          (record { start = d.last_end; dur = float.sub ms d.last_end; task = codes "other" } ∷ []),
    );
  }
  start-Adds false ms entry d h = record { ticks = omega (arith, h); segments = omega arith }

  stop-Adds :
      (from ms : W) (entry : Entry) (d : Drawing W)
      → tick_of entry ≡ 0
      → Adds entry d
          (record (append_whole float from ms entry.comm d) { last_end = ms; active = none })
  stop-Adds from ms entry d h = record {
    ticks = omega (arith, h);
    segments = omega (
      arith,
      length-append d.segments
          (record { start = from; dur = float.sub ms from; task = entry.comm } ∷ []),
    );
  }

  tick-Adds :
      (b : Bool) (ms : W) (entry : Entry) (d : Drawing W)
      → is_tick entry ≡ b
      → Adds entry d (if b then record d { ticks = d.ticks ++ ms ∷ [] } else d)
  tick-Adds true ms entry d h = record {
    ticks = rw h (length-append d.ticks (ms ∷ []));
    segments = omega arith;
  }
  tick-Adds false ms entry d h = record { ticks = rw h (omega arith); segments = omega arith }

  stopped_no_tick :
      (entry : Entry) (active : Option (W × Text)) (from : W)
      → stopped float entry active ≡ some from
      → tick_of entry ≡ 0
  unfolding stopped
  stopped_no_tick entry none from h = cc
  stopped_no_tick entry (some (first, comm)) from h = elim (Bool-cases (is_stop entry)) [
    | inl stop ↦ stop_no_tick entry stop
    | inr other ↦ absurd (nothing (rw other at h))
  ]
    where
      nothing : none ≡ some from → ⊥
      nothing e = cc

  draw_entry-Adds :
      (ms : W) (entry : Entry) (d : Drawing W) → Adds entry d (draw_entry float ms entry d)
  unfolding draw_entry
  draw_entry-Adds ms entry d = elim (Bool-cases (is_start entry)) [
    | inl starts ↦
        rw starts (start-Adds (float.lt d.last_end ms) ms entry d (start_no_tick entry starts))
    | inr other ↦ rw other (behind (stopped float entry d.active) refl)
  ]
    where
      behind :
          (found : Option W)
          → stopped float entry d.active ≡ found
          → Adds entry d (elim found [
            | some from ↦ record (append_whole float from ms entry.comm d) {
              last_end = ms;
              active = none;
            }
            | none ↦ if is_tick entry then record d { ticks = d.ticks ++ ms ∷ [] } else d
          ])
      behind (some from) e = stop-Adds from ms entry d (stopped_no_tick entry d.active from e)
      behind none e = tick-Adds (is_tick entry) ms entry d refl

  length-rectangles_of :
      (segments : List (Segment W)) → length (rectangles_of float segments) ≡ length segments
  unfolding rectangles_of
  length-rectangles_of [] = refl
  length-rectangles_of (s ∷ segments) = ap suc (length-rectangles_of segments)

  draw_all-step :
      (start_ts : ℤ) (entry : Entry) (entries : List Entry) (d : Drawing W)
      → draw_all float start_ts (entry ∷ entries) d
        ≡ draw_all float start_ts entries
            (draw_entry float (float.millis (entry.ts -ℤ start_ts)) entry d)
  unfolding draw_all
  draw_all-step start_ts entry entries d = refl

  draw_all-counts :
      (start_ts : ℤ) (entries : List Entry) (d : Drawing W)
      → (length (draw_all float start_ts entries d).ticks ≡ length d.ticks + tick_count entries)
        × (length (draw_all float start_ts entries d).segments ≤ length d.segments + length entries)
  draw_all-counts start_ts [] d = unfold draw_all in (omega arith, omega arith)
  draw_all-counts start_ts (entry ∷ entries) d =
      let ms = float.millis (entry.ts -ℤ start_ts) in
      let added = draw_entry-Adds ms entry d in
      let (ticks, size) = draw_all-counts start_ts entries (draw_entry float ms entry d) in
      rw draw_all-step (omega (arith, ticks, added.ticks), omega (arith, size, added.segments))

  -- A log that is not empty is drawn: with a tick for each of its ticks, and at most one rectangle for
  -- each of its entries.
  pub draw_timeline-counts :
      (entry : Entry) (logs : List Entry)
      → (rectangles : List (Rectangle W)) × (ticks : List W) × (draw_timeline float (entry ∷ logs)
          ≡ some (rectangles, ticks))
        × (length ticks ≡ tick_count (entry ∷ logs))
        × (length rectangles ≤ length (entry ∷ logs))
  unfolding draw_timeline
  draw_timeline-counts entry logs =
      let d =
        draw_all float entry.ts (sorted key_lt (entry ∷ logs))
          (record { segments = []; ticks = []; last_end = float.whole 0; active = none }) in
      let (ticks, size) =
        draw_all-counts entry.ts (sorted key_lt (entry ∷ logs))
          (record { segments = []; ticks = []; last_end = float.whole 0; active = none }) in
      let (same_ticks, same_size) = sorted-counts key_lt (entry ∷ logs) in
      (
        rectangles_of float d.segments,
        d.ticks,
        refl,
        omega (arith, ticks, same_ticks),
        omega (arith, size, same_size, length-rectangles_of d.segments),
      )
