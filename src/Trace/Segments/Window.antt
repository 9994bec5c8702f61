-- ===== src/Trace/Segments/Window.antt =====
-- The segments and ticks of build_segments against the window (benchmark/thread_switch_ebpf/plot_compare.py).
use pmu_roboflex.Prelude.{
  ◌+◌, ◌≡◌, refl, Bool, true, false, Bool-cases, inl, inr, ◌&&◌, Option, none, some, List, [], ◌∷◌,
  ◌++◌, Text, codes, text_beq, if◌then◌else◌, All, All-append, arith, subst, some_inj,
}
use pmu_roboflex.Prelude.Int.{ℤ, ◌-ℤ◌}
use pmu_roboflex.Float.{Float}
use pmu_roboflex.Float.Sorting.{sorted}
use pmu_roboflex.Trace.Parse.{Entry}
use pmu_roboflex.Trace.Segments.{
  Segment, Drawing, start_ms, max_ms, is_start, is_stop, is_tick, key_lt, minimum, maximum, at_most,
  in_window, offset, append_segment, on_start, on_stop, stopped, on_entry, draw_entries, blank,
  build_segments,
}

-- Laws of doubles: `<` is a strict order, the subtraction of the start of the window keeps the order,
-- and the integers 0, 110, 200 and 310 are exact.
pub record IsTimeline {W : Type 0} (float : Float W) : Type 0 where
  pub irreflexive : (a : W) → float.lt a a ≡ false
  pub asymmetric : (a b : W) → float.lt a b ≡ true → float.lt b a ≡ false
  pub shift :
      (a b : W)
      → float.lt b a ≡ false
      → float.lt (float.sub b (float.whole start_ms)) (float.sub a (float.whole start_ms)) ≡ false
  pub window_start : float.sub (float.whole start_ms) (float.whole start_ms) ≡ float.whole 0
  pub window_end :
      float.sub (float.whole (start_ms + max_ms)) (float.whole start_ms) ≡ float.whole max_ms
  pub width : float.lt (float.whole max_ms) (float.whole 0) ≡ false

-- A time of the window: from 0 to 200.
pub record IsInside {W : Type 0} (float : Float W) (a : W) : Type 0 where
  pub from_start : float.lt a (float.whole 0) ≡ false
  pub to_end : float.lt (float.whole max_ms) a ≡ false

-- A segment that starts in the window, is not empty, and is no longer than what is left of it.
pub record IsDrawn {W : Type 0} (float : Float W) (s : Segment W) : Type 0 where
  pub inside : IsInside float s.start
  pub filled : float.lt (float.whole 0) s.dur ≡ true
  pub fits : float.lt (float.sub (float.whole max_ms) s.start) s.dur ≡ false

abbrev IsActiveInside : {W : Type 0} → Float W → Option (W × Text) → Type 0
IsActiveInside float none = Unit
IsActiveInside float (some (from, comm)) = IsInside float from

record IsSound {W : Type 0} (float : Float W) (d : Drawing W) : Type 0 where
  segments : All (IsDrawn float) d.segments
  ticks : All (IsInside float) d.ticks
  last_end : IsInside float d.last_end
  active : IsActiveInside float d.active

module _ {W : Type 0} (float : Float W) (laws : IsTimeline float) where
  minimum-fits : (a b : W) → float.lt b (minimum float a b) ≡ false
  minimum-fits a b = ground (arith, laws.irreflexive b)

  nought-IsInside : IsInside float (float.whole 0)
  nought-IsInside = record { from_start = laws.irreflexive (float.whole 0); to_end = laws.width }

  shifted-IsInside :
      (a : W) → in_window float a ≡ true → IsInside float (float.sub a (float.whole start_ms))
  shifted-IsInside a h = record {
    from_start =
        subst (λ z. float.lt (float.sub a (float.whole start_ms)) z ≡ false) laws.window_start
          (laws.shift (float.whole start_ms) a (ground arith));
    to_end =
        subst (λ z. float.lt z (float.sub a (float.whole start_ms)) ≡ false) laws.window_end
          (laws.shift a (float.whole (start_ms + max_ms)) (ground arith));
  }

  offset-IsInside : (a : W) → IsInside float (offset float a)
  offset-IsInside a = elim (Bool-cases (in_window float a)) [
    | inl inside ↦ rw inside (shifted-IsInside a inside)
    | inr outside ↦ rw outside nought-IsInside
  ]

  maximum-IsInside : (a : W) → IsInside float a → IsInside float (maximum float a (float.whole 0))
  maximum-IsInside a h = elim (Bool-cases (float.lt a (float.whole 0))) [
    | inl less ↦ rw less nought-IsInside
    | inr more ↦ rw more h
  ]

  append_segment-IsSound :
      (start ms : W) (task : Text) (d : Drawing W)
      → IsInside float start
      → IsSound float d
      → IsSound float (append_segment float start ms task d)
  unfolding append_segment
  append_segment-IsSound start ms task d inside h =
      let dur = minimum float (float.sub ms start) (float.sub (float.whole max_ms) start) in
      elim (Bool-cases (float.lt (float.whole 0) dur)) [
        | inl filled ↦ rw filled (record {
          segments = All-append (IsDrawn float) d.segments _ h.segments (
            record {
              inside = inside;
              filled = filled;
              fits = minimum-fits (float.sub ms start) (float.sub (float.whole max_ms) start);
            },
            tt,
          );
          ticks = h.ticks;
          last_end = h.last_end;
          active = h.active;
        })
        | inr empty ↦ rw empty h
      ]

  activate :
      (from : W) (comm : Text) (d : Drawing W)
      → IsInside float from
      → IsSound float d
      → IsSound float (record d { active = some (from, comm) })
  activate from comm d inside h = record {
    segments = h.segments;
    ticks = h.ticks;
    last_end = h.last_end;
    active = inside;
  }

  if-IsSound :
      (b : Bool) (x y : Drawing W)
      → IsSound float x
      → IsSound float y
      → IsSound float (if b then x else y)
  if-IsSound true x y hx hy = hx
  if-IsSound false x y hx hy = hy

  on_start-IsSound :
      (ms_raw : W) (comm : Text) (d : Drawing W)
      → IsSound float d
      → IsSound float (on_start float ms_raw comm d)
  unfolding on_start
  on_start-IsSound ms_raw comm d h =
      if-IsSound (at_most float (float.whole start_ms) ms_raw) _ _
        (activate (offset float ms_raw) comm _ (offset-IsInside ms_raw) (
          if-IsSound (float.lt d.last_end (offset float ms_raw)) _ _
            (append_segment-IsSound d.last_end (offset float ms_raw) (codes "other") d h.last_end h)
            h))
        (activate (float.whole 0) comm d nought-IsInside h)

  on_stop-IsSound :
      (ms_raw from : W) (comm : Text) (d : Drawing W)
      → IsInside float from
      → IsSound float d
      → IsSound float (on_stop float ms_raw from comm d)
  unfolding on_stop
  on_stop-IsSound ms_raw from comm d inside h =
      let appended =
        append_segment-IsSound (maximum float from (float.whole 0)) (offset float ms_raw) comm d
          (maximum-IsInside from inside) h in
      if-IsSound (at_most float (float.whole start_ms) ms_raw) _ _
        (record {
          segments = appended.segments;
          ticks = appended.ticks;
          last_end = offset-IsInside ms_raw;
          active = tt;
        })
        (record { segments = h.segments; ticks = h.ticks; last_end = h.last_end; active = tt })

  nothing : (a : W) → none ≡ some a → ⊥
  nothing a e = cc

  stopped-IsInside :
      (entry : Entry) (active : Option (W × Text)) (from : W)
      → IsActiveInside float active
      → stopped float entry active ≡ some from
      → IsInside float from
  unfolding stopped
  stopped-IsInside entry none from h e = cc
  stopped-IsInside entry (some (first, comm)) from h e =
      elim (Bool-cases (is_stop entry && text_beq comm entry.comm)) [
        | inl same ↦ subst (IsInside float) (some_inj (rw same at e)) h
        | inr other ↦ absurd (nothing from (rw other at e))
      ]

  on_entry-IsSound :
      (ms_raw : W) (entry : Entry) (d : Drawing W)
      → IsSound float d
      → IsSound float (on_entry float ms_raw entry d)
  unfolding on_entry
  on_entry-IsSound ms_raw entry d h =
      if-IsSound (is_start entry) _ _ (on_start-IsSound ms_raw entry.comm d h)
        (other (stopped float entry d.active) refl)
    where
      other :
          (found : Option W)
          → stopped float entry d.active ≡ found
          → IsSound float (elim found [
            | some from ↦ on_stop float ms_raw from entry.comm d
            | none ↦
                if is_tick entry && in_window float ms_raw
                then record d { ticks = d.ticks ++ offset float ms_raw ∷ [] }
                else d
          ])
      other (some from) e =
          on_stop-IsSound ms_raw from entry.comm d (stopped-IsInside entry d.active from h.active e)
            h
      other none e =
          if-IsSound (is_tick entry && in_window float ms_raw) _ _
            (record {
              segments = h.segments;
              ticks = All-append (IsInside float) d.ticks _ h.ticks (offset-IsInside ms_raw, tt);
              last_end = h.last_end;
              active = h.active;
            })
            h

  draw_entries-IsSound :
      (start_ts : ℤ) (entries : List Entry) (d : Drawing W)
      → IsSound float d
      → IsSound float (draw_entries float start_ts entries d)
  unfolding draw_entries
  draw_entries-IsSound start_ts [] d h = h
  draw_entries-IsSound start_ts (entry ∷ entries) d h =
      if-IsSound (float.lt (float.whole (start_ms + max_ms)) (float.millis (entry.ts -ℤ start_ts)))
        _ _ h
        (draw_entries-IsSound start_ts entries _
          (on_entry-IsSound (float.millis (entry.ts -ℤ start_ts)) entry d h))

  -- Over floats with the laws of IsTimeline: every segment starts in the window of 200 ms, is not empty,
  -- and is no longer than what is left of the window; every tick lies in the window. This holds of every
  -- log, also of one whose entries come in any order, or without their counterparts.
  pub build_segments-IsDrawn :
      (logs : List Entry)
      → All (IsDrawn float) (build_segments float logs).0
        × All (IsInside float) (build_segments float logs).1
  unfolding build_segments
  build_segments-IsDrawn [] = (tt, tt)
  build_segments-IsDrawn (entry ∷ logs) =
      let sound =
        draw_entries-IsSound entry.ts (sorted key_lt (entry ∷ logs)) (blank float)
          (record { segments = tt; ticks = tt; last_end = nought-IsInside; active = tt }) in
      (sound.segments, sound.ticks)
