-- ===== src/HpfBench/Results.antt =====
-- How `run_bench` reads the CSV files of its processes (benchmark/xsched_hpf_shmm/run_bench.py).
pub mod Rows
pub mod Counts
use pmu_roboflex.Prelude.{
  ℕ, ◌≡◌, refl, Bool, true, false, ◌||◌, Option, none, some, List, [], ◌∷◌, ◌++◌, Text, codes,
  text_beq, starts_with, if◌then◌else◌,
}
use pmu_roboflex.Prelude.Words.{split_at, strip, lower}
use pmu_roboflex.Float.{Float}

pub data Label : Type 0 where
  high low : Label

pub record Times (W : Type 0) : Type 0 where
  pub high_times : List W
  pub low_times : List W

abbrev pub no_times : {W : Type 0} → Times W
no_times = record { high_times = []; low_times = [] }

abbrev pub add_time : {W : Type 0} → Label → W → Times W → Times W
add_time high km t = record t { high_times = t.high_times ++ km ∷ [] }
add_time low km t = record t { low_times = t.low_times ++ km ∷ [] }

-- The CSV column decides, and for any other text in it the label of the file.
unfoldable pub label_of : Text → Label → Label
label_of pri label =
    if text_beq pri (codes "high") then high else if text_beq pri (codes "low") then low else label

abbrev pub is_skipped : Text → Bool
is_skipped [] = true
is_skipped (c ∷ t) = starts_with (codes "proc_id") (c ∷ t)

-- A file of a process: its path and, unless opening it fails, its lines.
pub record OutFile : Type 0 where
  pub label : Label
  pub path : Text
  pub lines : Option (List Text)

module _ {W : Type 0} (float : Float W) where
  abbrev add_parsed : Label → Option W → Times W → Times W
  add_parsed label none t = t
  add_parsed label (some km) t = add_time label km t

  -- Fewer than five columns give nothing, and so does a fourth one that is no float.
  unfoldable pub add_row : Label → List Text → Times W → Times W
  add_row label (id ∷ pri ∷ task ∷ kernel_ms ∷ total_ms ∷ more) t =
      add_parsed (label_of (lower (strip pri)) label) (float.parse kernel_ms) t
  add_row label _ t = t

  unfoldable pub read_line : Label → Text → Times W → Times W
  read_line label raw t =
      let line = strip raw in if is_skipped line then t else add_row label (split_at b',' line) t

  unfoldable pub read_lines : Label → List Text → Times W → Times W
  read_lines label [] t = t
  read_lines label (raw ∷ lines) t = read_lines label lines (read_line label raw t)

  -- A file that cannot be opened is passed over.
  unfoldable pub read_file : OutFile → Times W → Times W
  read_file file t = elim file.lines [ none ↦ t | some lines ↦ read_lines file.label lines t ]

  -- Each file is unlinked behind its reading, whatever happened in it.
  unfoldable pub collect : List OutFile → Times W → List Text → Times W × List Text
  collect [] t unlinked = (t, unlinked)
  collect (file ∷ files) t unlinked = collect files (read_file file t) (unlinked ++ file.path ∷ [])
