-- ===== src/HpfBench/Results/Counts.antt =====
-- Whole files in `run_bench` (benchmark/xsched_hpf_shmm/run_bench.py).
use pmu_roboflex.Prelude.{
  ℕ, ◌+◌, ◌≤◌, ◌≡◌, refl, ap, sym, ◌∙◌, Option, none, some, List, [], ◌∷◌, ◌++◌, append-nil,
  append_assoc, map, Text, codes, All, length, length-append, arith,
}
use pmu_roboflex.Prelude.Words.{split_at, strip, lower, is_space}
use pmu_roboflex.Float.{Float}
use pmu_roboflex.HpfBench.Results.{
  Label, high, low, Times, OutFile, add_time, label_of, add_parsed, add_row, read_line, read_lines,
  read_file, collect,
}
use pmu_roboflex.HpfBench.Results.Rows.{IsField, row, read_line-row}

-- One sample: its number, its two printed columns, and the float of the first.
pub record Sample (W : Type 0) : Type 0 where
  pub task : ℕ
  pub kernel_ms : Text
  pub total_ms : Text
  pub km : W

abbrev pub header : Text
header = codes "proc_id,priority,task,kernel_ms,total_ms\n"

module _ {W : Type 0} (float : Float W) where
  abbrev pub IsPrinted : Sample W → Type 0
  IsPrinted s = IsField s.kernel_ms × IsField s.total_ms × (float.parse s.kernel_ms ≡ some s.km)

  -- The lines of a process: the header and a row for each sample.
  abbrev pub printed_rows : ℕ → Label → List (Sample W) → List Text
  printed_rows id pri [] = []
  printed_rows id pri (s ∷ samples) =
      row id pri s.task s.kernel_ms s.total_ms ∷ printed_rows id pri samples

  -- The samples behind those of a priority.
  abbrev pub add_samples : Label → List (Sample W) → Times W → Times W
  add_samples high samples t = record t { high_times = t.high_times ++ map (λ s. s.km) samples }
  add_samples low samples t = record t { low_times = t.low_times ++ map (λ s. s.km) samples }

  read_header : (label : Label) (t : Times W) → read_line float label header t ≡ t
  unfolding read_line strip is_space
  read_header label t = refl

  add_samples-cons :
      (pri : Label) (s : Sample W) (samples : List (Sample W)) (t : Times W)
      → add_samples pri samples (add_time pri s.km t) ≡ add_samples pri (s ∷ samples) t
  add_samples-cons high s samples t =
      ap (λ (l : List W). record t { high_times = l }) (append_assoc t.high_times (s.km ∷ []) _)
  add_samples-cons low s samples t =
      ap (λ (l : List W). record t { low_times = l }) (append_assoc t.low_times (s.km ∷ []) _)

  read_lines-cons :
      (label : Label) (raw : Text) (lines : List Text) (t : Times W)
      → read_lines float label (raw ∷ lines) t
        ≡ read_lines float label lines (read_line float label raw t)
  unfolding read_lines
  read_lines-cons label raw lines t = refl

  read_rows :
      (label pri : Label) (id : ℕ) (samples : List (Sample W)) (t : Times W)
      → All IsPrinted samples
      → read_lines float label (printed_rows id pri samples) t ≡ add_samples pri samples t
  read_rows label high id [] t h = unfold read_lines in ground (arith, append-nil {0} t.high_times)
  read_rows label low id [] t h = unfold read_lines in ground (arith, append-nil {0} t.low_times)
  read_rows label pri id (s ∷ samples) t ((hk, ht, number), hs) =
      rw
        (
          read_lines-cons,
          read_line-row float label pri id s.task s.kernel_ms s.total_ms s.km t hk ht number,
        )
        (read_rows label pri id samples (add_time pri s.km t) hs ∙ add_samples-cons pri s samples t)

  -- The file of a process, its header and a row for each sample, gives exactly its samples, in their
  -- order, behind those read before, under the priority of its rows.
  pub read_file-printed :
      (label pri : Label) (id : ℕ) (path : Text) (samples : List (Sample W)) (t : Times W)
      → All IsPrinted samples
      → read_file float
          (record {
            label = label;
            path = path;
            lines = some (header ∷ printed_rows id pri samples);
          })
          t
        ≡ add_samples pri samples t
  unfolding read_file
  read_file-printed label pri id path samples t h =
      rw (read_lines-cons, read_header label t) (read_rows label pri id samples t h)

  abbrev pub total : Times W → ℕ
  total t = length t.high_times + length t.low_times

  abbrev line_count_of : Option (List Text) → ℕ
  line_count_of none = 0
  line_count_of (some lines) = length lines

  -- The lines of the files that can be opened.
  abbrev pub line_count : List OutFile → ℕ
  line_count [] = 0
  line_count (file ∷ files) = line_count_of file.lines + line_count files

  add_time-total :
      (label : Label) (km : W) (t : Times W) → total (add_time label km t) ≡ total t + 1
  add_time-total high km t = omega (arith, length-append t.high_times (km ∷ []))
  add_time-total low km t = omega (arith, length-append t.low_times (km ∷ []))

  add_parsed-total :
      (label : Label) (found : Option W) (t : Times W)
      → total (add_parsed float label found t) ≤ total t + 1
  add_parsed-total label none t = omega arith
  add_parsed-total label (some km) t = omega (arith, add_time-total label km t)

  add_row-total :
      (label : Label) (parts : List Text) (t : Times W)
      → total (add_row float label parts t) ≤ total t + 1
  unfolding add_row
  add_row-total label (id ∷ pri ∷ task ∷ kernel_ms ∷ total_ms ∷ more) t =
      add_parsed-total (label_of (lower (strip pri)) label) (float.parse kernel_ms) t
  add_row-total label _ t = omega arith

  read_line-total :
      (label : Label) (raw : Text) (t : Times W) → total (read_line float label raw t) ≤ total t + 1
  unfolding read_line
  read_line-total label raw t = ground (arith, add_row-total label (split_at b',' (strip raw)) t)

  read_lines-total :
      (label : Label) (lines : List Text) (t : Times W)
      → total (read_lines float label lines t) ≤ total t + length lines
  unfolding read_lines
  read_lines-total label [] t = omega arith
  read_lines-total label (raw ∷ lines) t = omega (
    arith,
    read_lines-total label lines (read_line float label raw t),
    read_line-total label raw t,
  )

  read_file-total :
      (file : OutFile) (t : Times W)
      → total (read_file float file t) ≤ total t + line_count_of file.lines
  unfolding read_file
  read_file-total file t = read_opened file.label file.lines t
    where
      read_opened :
          (label : Label) (opened : Option (List Text)) (t : Times W)
          → total (elim opened [ none ↦ t | some lines ↦ read_lines float label lines t ])
            ≤ total t + line_count_of opened
      read_opened label none t = omega arith
      read_opened label (some lines) t = read_lines-total label lines t

  -- Reading all files invents nothing, and leaves no file behind: there are at most as many samples as
  -- lines, and every file is unlinked, once and in order, also one that could not be opened.
  pub collect_accounts :
      (files : List OutFile) (t : Times W) (unlinked : List Text)
      → (total (collect float files t unlinked).0 ≤ total t + line_count files)
        × ((collect float files t unlinked).1 ≡ unlinked ++ map (λ file. file.path) files)
  unfolding collect
  collect_accounts [] t unlinked = (omega arith, sym (append-nil unlinked))
  collect_accounts (file ∷ files) t unlinked =
      let (few, paths) =
        collect_accounts files (read_file float file t) (unlinked ++ file.path ∷ []) in
      (omega (arith, read_file-total file t), paths ∙ append_assoc unlinked (file.path ∷ []) _)
