-- ===== src/Trace/Segments/Order.antt =====
-- The order of the two lines of a switch, which is that of the eBPF handler, against the sort of
-- build_segments (benchmark/thread_switch_ebpf/plot_compare.py).
use pmu_roboflex.Prelude.{
  ℕ, ◌≡◌, refl, sym, ap, ◌∙◌, Bool, true, false, Bool-cases, inl, inr, List, [], ◌∷◌, ◌++◌, map,
  ◌==◌, arith,
}
use pmu_roboflex.Prelude.Int.{ℤ}
use pmu_roboflex.Float.{Float}
use pmu_roboflex.Float.Sorting.{insort, insort_all, sorted}
use pmu_roboflex.Trace.Parse.{Entry}
use pmu_roboflex.Trace.Monitor.{Task, event_of, start, stop, on_raw_tracepoint, on_kprobe}
use pmu_roboflex.Trace.Parse.Printed.{entry_of}
use pmu_roboflex.Trace.Segments.{Segment, is_start, key_lt, blank, draw_entries, build_segments}

key_lt_asymm : (a b : Entry) → key_lt a b ≡ true → key_lt b a ≡ false
unfolding key_lt
key_lt_asymm a b h = ground arith

key_lt_trans : (a b c : Entry) → key_lt a b ≡ true → key_lt b c ≡ true → key_lt a c ≡ true
unfolding key_lt
key_lt_trans a b c h k = ground arith

insort-front :
    (x y : Entry) (l : List Entry) → key_lt x y ≡ true → insort key_lt x (y ∷ l) ≡ x ∷ y ∷ l
unfolding insort
insort-front x y l h = rw h

insort-behind :
    (x y : Entry) (l : List Entry)
    → key_lt x y ≡ false
    → insort key_lt x (y ∷ l) ≡ y ∷ insort key_lt x l
unfolding insort
insort-behind x y l h = rw h

insort-nil : (x : Entry) → insort key_lt x [] ≡ x ∷ []
unfolding insort
insort-nil x = refl

-- Two entries with different keys are inserted in either order.
insort_comm :
    (a b : Entry) (l : List Entry)
    → key_lt b a ≡ true
    → insort key_lt a (insort key_lt b l) ≡ insort key_lt b (insort key_lt a l)
insort_comm a b [] h = rw (
  insort-nil,
  insort-nil,
  insort-behind a b [] (key_lt_asymm b a h),
  insort-front b a [] h,
  insort-nil,
)
insort_comm a b (y ∷ l) h = elim (Bool-cases (key_lt b y)) [
  | inl b_first ↦ elim (Bool-cases (key_lt a y)) [
    | inl a_first ↦ rw (
      insort-front b y l b_first,
      insort-front a y l a_first,
      insort-behind a b (y ∷ l) (key_lt_asymm b a h),
      insort-front a y l a_first,
      insort-front b a (y ∷ l) h,
    )
    | inr a_later ↦ rw (
      insort-front b y l b_first,
      insort-behind a y l a_later,
      insort-behind a b (y ∷ l) (key_lt_asymm b a h),
      insort-behind a y l a_later,
      insort-front b y (insort key_lt a l) b_first,
    )
  ]
  | inr b_later ↦ elim (Bool-cases (key_lt a y)) [
    | inl a_first ↦ absurd (wrong (sym b_later ∙ key_lt_trans b a y h a_first))
    | inr a_later ↦
        rw
          (
            insort-behind b y l b_later,
            insort-behind a y l a_later,
            insort-behind a y (insort key_lt b l) a_later,
            insort-behind b y (insort key_lt a l) b_later,
          )
          (ap (λ es. y ∷ es) (insort_comm a b l h))
  ]
]
  where
    wrong : false ≡ true → ⊥
    wrong e = cc

insort_all-cons :
    (x : Entry) (xs done : List Entry)
    → insort_all key_lt (x ∷ xs) done ≡ insort_all key_lt xs (insort key_lt x done)
unfolding insort_all
insort_all-cons x xs done = refl

insort_all-swap :
    (a b : Entry) (before after done : List Entry)
    → key_lt b a ≡ true
    → insort_all key_lt (before ++ a ∷ b ∷ after) done
      ≡ insort_all key_lt (before ++ b ∷ a ∷ after) done
insort_all-swap a b [] after done h =
    rw (insort_all-cons a (b ∷ after) done, insort_all-cons b after (insort key_lt a done))
      (rw (insort_all-cons b (a ∷ after) done, insort_all-cons a after (insort key_lt b done))
        (ap (insort_all key_lt after) (sym (insort_comm a b done h))))
insort_all-swap a b (x ∷ before) after done h =
    rw
      (
        insort_all-cons x (before ++ a ∷ b ∷ after) done,
        insort_all-cons x (before ++ b ∷ a ∷ after) done,
      )
      (insort_all-swap a b before after (insort key_lt x done) h)

-- At the same time, a stop comes in front of a start.
stop_first :
    (a b : Entry) → a.ts ≡ b.ts → is_start a ≡ true → is_start b ≡ false → key_lt b a ≡ true
unfolding key_lt
stop_first a b same starts stops = rw (same, starts, stops) (ground arith)

sorted-swap :
    (a b : Entry) (before after : List Entry)
    → key_lt b a ≡ true
    → sorted key_lt (before ++ a ∷ b ∷ after) ≡ sorted key_lt (before ++ b ∷ a ∷ after)
unfolding sorted
sorted-swap a b before after h = insort_all-swap a b before after [] h

module _ {W : Type 0} (float : Float W) where
  abbrev drawn : ℤ → List Entry → List (Segment W) × List W
  drawn start_ts entries =
      let d = draw_entries float start_ts entries (blank float) in (d.segments, d.ticks)

  build_segments-cons :
      (entry : Entry) (logs : List Entry)
      → build_segments float (entry ∷ logs) ≡ drawn entry.ts (sorted key_lt (entry ∷ logs))
  unfolding build_segments
  build_segments-cons entry logs = refl

  -- Two entries of the same time, a start and another, may stand in either order.
  build_segments-swap :
      (a b : Entry) (before after : List Entry)
      → a.ts ≡ b.ts
      → is_start a ≡ true
      → is_start b ≡ false
      → build_segments float (before ++ a ∷ b ∷ after)
        ≡ build_segments float (before ++ b ∷ a ∷ after)
  build_segments-swap a b [] after same starts stops =
      build_segments-cons a (b ∷ after)
      ∙ ap (λ t. drawn t (sorted key_lt (a ∷ b ∷ after))) same
      ∙ ap (drawn b.ts) (sorted-swap a b [] after (stop_first a b same starts stops))
      ∙ sym (build_segments-cons b (a ∷ after))
  build_segments-swap a b (x ∷ before) after same starts stops =
      build_segments-cons x (before ++ a ∷ b ∷ after)
      ∙ ap (drawn x.ts) (sorted-swap a b (x ∷ before) after (stop_first a b same starts stops))
      ∙ sym (build_segments-cons x (before ++ b ∷ a ∷ after))

  -- The lines that the raw tracepoint and the kprobe give for a switch can stand for one another in a
  -- log, whatever stands before and after them: the segments and ticks of the log are the same.
  pub build_segments-handlers :
      (target : ℕ → Bool) (cpu now : ℕ) (prev next : Task) (before after : List Entry)
      → build_segments float
          (before ++ (map entry_of (on_raw_tracepoint target cpu now prev next) ++ after))
        ≡ build_segments float
            (before ++ (map entry_of (on_kprobe target cpu now prev next) ++ after))
  unfolding on_raw_tracepoint on_kprobe
  build_segments-handlers target cpu now prev next before after = elim (Bool-cases (cpu == 0)) [
    | inr other ↦ rw other
    | inl first ↦ elim (Bool-cases (target next.tgid)) [
      | inr n ↦ elim (Bool-cases (target prev.tgid)) [
        | inr p ↦ rw (first, n, p)
        | inl p ↦ rw (first, n, p)
      ]
      | inl n ↦ elim (Bool-cases (target prev.tgid)) [
        | inr p ↦ rw (first, n, p)
        | inl p ↦
            rw (first, n, p)
              (build_segments-swap (entry_of (event_of start now next))
                (entry_of (event_of stop now prev)) before after refl refl refl)
      ]
    ]
  ]
