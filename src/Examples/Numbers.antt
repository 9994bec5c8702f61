-- ===== src/Examples/Numbers.antt =====
-- Whole numbers in place of the floats of the scripts: an instance of the interface and of its laws.
use pmu_roboflex.Prelude.{ℕ, ◌+◌, ◌-◌, ◌/◌, refl, none, some, List, [], ◌∷◌, ltb, arith}
use pmu_roboflex.Prelude.Int.{pos_part}
use pmu_roboflex.Prelude.Decimal.{parse_int}
use pmu_roboflex.Float.{Float, IsOrdered}
use pmu_roboflex.Trace.Segments.Window.{IsTimeline}

abbrev pub add_all : List ℕ → ℕ
add_all [] = 0
add_all (n ∷ ns) = n + add_all ns

-- Whole numbers in place of floats.
abbrev pub whole : Float ℕ
whole = record {
  whole = λ n. n;
  lt = ltb;
  add = λ a b. a + b;
  sub = λ a b. a - b;
  sum = add_all;
  divide = λ a n. a / n;
  parse = λ t. elim (parse_int t) [ none ↦ none | some i ↦ some (pos_part i) ];
  millis = pos_part;
}

pub whole-IsOrdered : IsOrdered whole (λ _. Unit)
whole-IsOrdered = record {
  lt_asymm = λ a b _ _ h. ground arith;
  le_trans = λ a b c _ _ _ h k. ground arith;
}

pub whole-IsTimeline : IsTimeline whole
whole-IsTimeline = record {
  irreflexive = λ a. ground arith;
  asymmetric = λ a b h. ground arith;
  shift = λ a b h. ground arith;
  window_start = refl;
  window_end = refl;
  width = refl;
}
