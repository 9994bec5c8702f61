-- ===== src/Events/Names.antt =====
-- The table of event names (inc/robflex_event.h).
use pmu_roboflex.Prelude.{
  ℕ, zero, suc, ◌+◌, ◌-◌, ◌≤◌, ◌≡◌, ◌↔◌, Option, none, some, List, [], ◌∷◌, Text, text_beq,
  text_beq_iff, get_elem?, length, arith, Bool-cases, inl, inr, subst, some_inj, ap, sym,
}
use pmu_roboflex.Events.{index_from, robflex_get_event_idx, robflex_event_name_list}

index_from-finds :
    (k : ℕ) (names : List Text) (name : Text) (i : ℕ)
    → index_from k names name ≡ suc i
    → (k ≤ i) × (get_elem? names (i - k) ≡ some name)
unfolding index_from
index_from-finds k [] name i h = absurd (omega arith)
index_from-finds k (n ∷ names) name i h = elim (Bool-cases (text_beq name n)) [
  | inl same ↦
      let here : k + 1 ≡ suc i = rw same at h in
      let none_before : i - k ≡ 0 = omega arith in
      (omega arith, rw none_before (ap (λ (t : Text). some t) (sym ((text_beq_iff name n).0 same))))
  | inr other ↦
      let later : index_from (k + 1) names name ≡ suc i = rw other at h in
      let (after, found) = index_from-finds (k + 1) names name i later in
      let step : i - k ≡ suc (i - (k + 1)) = omega arith in (omega arith, rw step found)
]

-- The names from place k on have their places as indices.
abbrev ArePlaced : ℕ → List Text → Type 0
ArePlaced k [] = Unit
ArePlaced k (name ∷ names) = (robflex_get_event_idx (some name) ≡ suc k) × ArePlaced (suc k) names

table-ArePlaced : ArePlaced 0 robflex_event_name_list
unfolding robflex_get_event_idx
table-ArePlaced = omega arith

placed :
    (k : ℕ) (names : List Text) (i : ℕ) {name : Text}
    → ArePlaced k names
    → get_elem? names i ≡ some name
    → robflex_get_event_idx (some name) ≡ suc (k + i)
placed k [] i all h = cc
placed k (n ∷ names) zero (e, all) h =
    subst (λ t. robflex_get_event_idx (some t) ≡ suc (k + 0)) (some_inj h) (omega (arith, e))
placed k (n ∷ names) (suc i) (e, all) h = omega (arith, placed (suc k) names i all h)

-- The i-th name of the table is the only text with the index i + 1.
pub robflex_get_event_idx_lem :
    (name : Text) (i : ℕ)
    → (robflex_get_event_idx (some name) ≡ suc i)
      ↔ (get_elem? robflex_event_name_list i ≡ some name)
unfolding robflex_get_event_idx
robflex_get_event_idx_lem name i = (
  λ h.
      let same : i - 0 ≡ i = omega arith in
      rw same at (index_from-finds 0 robflex_event_name_list name i h).1,
  λ h. omega (arith, placed 0 robflex_event_name_list i table-ArePlaced h),
)

index_from-le :
    (k : ℕ) (names : List Text) (name : Text) → index_from k names name ≤ k + length names
unfolding index_from
index_from-le k [] name = omega arith
index_from-le k (n ∷ names) name = ground (arith, index_from-le (k + 1) names name)

-- An index is at most 8.
pub robflex_get_event_idx-le : (name : Option Text) → robflex_get_event_idx name ≤ 8
unfolding robflex_get_event_idx
robflex_get_event_idx-le none = omega arith
robflex_get_event_idx-le (some name) = index_from-le 0 robflex_event_name_list name
