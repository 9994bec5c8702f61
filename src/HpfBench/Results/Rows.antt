-- ===== src/HpfBench/Results/Rows.antt =====
-- The rows that `cuda_bench_app` prints, against the loop of `run_bench`
-- (benchmark/xsched_hpf_shmm/run_bench.py).
use pmu_roboflex.Prelude.{
  ℕ, ◌+◌, ◌<◌, ◌≡◌, refl, false, some, List, [], ◌∷◌, ◌++◌, Text, codes, All, Lacks, arith,
}
use pmu_roboflex.Prelude.Words.{is_space, split_at, strip, lower}
use pmu_roboflex.Prelude.Words.Laws.{IsSolid}
use pmu_roboflex.Prelude.Words.Fields.{join_at, split_at-join_at, strip_line, join_at-IsSolid}
use pmu_roboflex.Prelude.Decimal.{str_nat}
use pmu_roboflex.Prelude.Decimal.RoundTrip.{IsDigit, str_nat-All, str_nat-cons}
use pmu_roboflex.Float.{Float}
use pmu_roboflex.HpfBench.Results.{
  Label, high, low, Times, add_time, label_of, is_skipped, add_row, read_line,
}

-- A field of a row: no white space and no comma.
abbrev pub IsField : Text → Type 0
IsField t = All IsSolid t × Lacks b',' t

-- How the program prints its priority.
abbrev pub priority_name : Label → Text
priority_name high = codes "high"
priority_name low = codes "low"

-- `printf("%d,%s,%d,%.2f,%.2f\n", …)`, the last two fields as they are printed.
abbrev pub row_fields : ℕ → Label → ℕ → Text → Text → List Text
row_fields id pri task kernel_ms total_ms =
    str_nat id ∷ priority_name pri ∷ str_nat task ∷ kernel_ms ∷ total_ms ∷ []

abbrev pub row : ℕ → Label → ℕ → Text → Text → Text
row id pri task kernel_ms total_ms =
    join_at b',' (row_fields id pri task kernel_ms total_ms) ++ b'\n' ∷ []

label_of_name : (pri label : Label) → label_of (lower (strip (priority_name pri))) label ≡ pri
unfolding label_of lower strip is_space
label_of_name high label = refl
label_of_name low label = refl

digit-IsSolid : (c : ℕ) → IsDigit c → IsSolid c
unfolding is_space
digit-IsSolid c h = ground arith

digits-IsField : (t : Text) → All IsDigit t → IsField t
digits-IsField [] h = (tt, tt)
digits-IsField (c ∷ t) (hc, ht) =
    let (solid, lacks) = digits-IsField t ht in
    ((digit-IsSolid c hc, solid), (λ e. omega arith, lacks))

str_nat-IsField : (n : ℕ) → IsField (str_nat n)
str_nat-IsField n = digits-IsField (str_nat n) (str_nat-All n)

name-IsField : (pri : Label) → IsField (priority_name pri)
unfolding is_space
name-IsField high = ground arith
name-IsField low = ground arith

row-IsSolid :
    (id : ℕ) (pri : Label) (task : ℕ) (kernel_ms total_ms : Text)
    → IsField kernel_ms
    → IsField total_ms
    → All IsSolid (join_at b',' (row_fields id pri task kernel_ms total_ms))
row-IsSolid id pri task kernel_ms total_ms hk ht =
    join_at-IsSolid b',' (row_fields id pri task kernel_ms total_ms) (unfold is_space in refl) (
      (str_nat-IsField id).0,
      ((name-IsField pri).0, ((str_nat-IsField task).0, (hk.0, (ht.0, tt)))),
    )

split-row :
    (id : ℕ) (pri : Label) (task : ℕ) (kernel_ms total_ms : Text)
    → IsField kernel_ms
    → IsField total_ms
    → split_at b',' (join_at b',' (row_fields id pri task kernel_ms total_ms))
      ≡ row_fields id pri task kernel_ms total_ms
split-row id pri task kernel_ms total_ms hk ht =
    split_at-join_at b',' _ _ (
      (str_nat-IsField id).1,
      ((name-IsField pri).1, ((str_nat-IsField task).1, (hk.1, (ht.1, tt)))),
    )

-- A text that begins with a digit is no header and not empty.
digit_not_skipped : (d : ℕ) (t : Text) → d < 10 → is_skipped ((b'0' + d) ∷ t) ≡ false
digit_not_skipped d t h = ground arith

number_not_skipped : (n : ℕ) (t : Text) → is_skipped (str_nat n ++ t) ≡ false
number_not_skipped n t =
    let (d, rest, e, small) = str_nat-cons n in rw e (digit_not_skipped d (rest ++ t) small)

-- A printed row whose number is a float adds exactly that sample, at the end of the list of the
-- priority that the row names, whatever the label of the file.
pub read_line-row :
    {W : Type 0} (float : Float W) (label pri : Label) (id task : ℕ) (kernel_ms total_ms : Text)
    (km : W) (t : Times W)
    → IsField kernel_ms
    → IsField total_ms
    → float.parse kernel_ms ≡ some km
    → read_line float label (row id pri task kernel_ms total_ms) t ≡ add_time pri km t
unfolding read_line
read_line-row float label pri id task kernel_ms total_ms km t hk ht number =
    rw
      (
        strip_line _ (row-IsSolid id pri task kernel_ms total_ms hk ht),
        number_not_skipped id _,
        split-row id pri task kernel_ms total_ms hk ht,
      )
      (unfold add_row in rw (label_of_name pri label, number))
