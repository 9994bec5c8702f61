-- ===== src/Contexts/Laws.antt =====
-- The operations of the table of inc/robflex_def.h against a map from event indices to contexts.
use pmu_roboflex.Prelude.{
  ℕ, suc, ◌≡◌, ◌≢◌, refl, Bool, true, false, Option, none, some, List, [], ◌∷◌, All, if◌then◌else◌,
  length, arith, Bool-cases, Option-cases, inl, inr, ap, sym, ◌⊎◌, ◌∙◌,
}
use pmu_roboflex.Prelude.Int.{ℤ, pos, negsuc, beq_int}
use pmu_roboflex.Contexts.{
  Entry, Table, is_none_idx, success, failure, increased, decreased, is_positive, first, change,
  is_entry_of, is_free, robflex_event_table_find_entry, take_free, put_entry, drop_entry,
  robflex_event_table_upsert, robflex_event_table_erase, robflex_event_table_get_ctx,
}
use pmu_roboflex.Contexts.Slots.{
  value, used, change_first, change-first, read-first, first-none-value, first-some-value, with_ctx,
  taken, dropped, value-with_ctx, used-with_ctx, value-taken,
}
use pmu_roboflex.Contexts.Indices.{
  IsDistinct, IsFresh-value, used-taken-IsDistinct, used-dropped-IsDistinct, length-used-taken,
  length-used-dropped, used-taken-All, used-dropped-All, used_full, value-dropped,
}

module _ {Context : Type 0} where
  pub get_ctx_lem :
      (t : Table Context) (i : ℤ)
      → is_none_idx i ≡ false
      → robflex_event_table_get_ctx t i ≡ value i t.entries
  unfolding robflex_event_table_get_ctx robflex_event_table_find_entry
  get_ctx_lem t i h = rw (robflex_event_table_get_ctx, h) (read-first i t.entries)

  pub get_ctx-none_idx :
      (t : Table Context) (i : ℤ) → is_none_idx i ≡ true → robflex_event_table_get_ctx t i ≡ none
  unfolding robflex_event_table_get_ctx robflex_event_table_find_entry
  get_ctx-none_idx t i h = rw (robflex_event_table_get_ctx, h) refl

  length-change_first :
      (test : Entry Context → Bool) (f : Entry Context → Entry Context) (es : List (Entry Context))
      → length (change_first test f es) ≡ length es
  unfolding change_first
  length-change_first test f [] = refl
  length-change_first test f (e ∷ es) = ground (arith, length-change_first test f es)

  -- What a table gives after a write of an index.
  abbrev pub Reads : Table Context → ℤ → Option Context → Table Context → Type 0
  Reads t i v t' =
      (j : ℤ)
      → robflex_event_table_get_ctx t' j
        ≡ (if beq_int i j then v else robflex_event_table_get_ctx t j)

  Reads-of_value :
      (t t' : Table Context) (i : ℤ) (v : Option Context)
      → is_none_idx i ≡ false
      → ((j : ℤ) → value j t'.entries ≡ (if beq_int i j then v else value j t.entries))
      → Reads t i v t'
  Reads-of_value t t' i v h all j = elim (Bool-cases (is_none_idx j)) [
    | inl n ↦ rw (get_ctx-none_idx t' j n, get_ctx-none_idx t j n) (other i j h n v)
    | inr n ↦ rw (get_ctx_lem t' j n, get_ctx_lem t j n) (all j)
  ]
    where
      other :
          (i j : ℤ)
          → is_none_idx i ≡ false
          → is_none_idx j ≡ true
          → (v : Option Context) → none ≡ (if beq_int i j then v else none)
      other (pos i) (pos j) h n v = ground arith
      other (pos i) (negsuc j) h n v = ground arith
      other (negsuc i) j h n v = cc

  -- The index is stored; or the table is full of other indices and stays as it is.
  abbrev pub IsStored : Table Context → ℤ → Context → ℤ × Table Context → Type 0
  IsStored t i c r = (r.0 ≡ success) × Reads t i (some c) r.1

  abbrev pub IsFull : Table Context → ℤ → ℤ × Table Context → Type 0
  IsFull t i r = (r ≡ (failure, t)) × (robflex_event_table_get_ctx t i ≡ none) × (t.count ≡ pos 8)

  -- The context of the index is removed; or there is none and the table stays as it is.
  abbrev pub IsErased : Table Context → ℤ → ℤ × Table Context → Type 0
  IsErased t i r = (r.0 ≡ success) × (robflex_event_table_get_ctx t i ≢ none) × Reads t i none r.1

  abbrev pub IsAbsent : Table Context → ℤ → ℤ × Table Context → Type 0
  IsAbsent t i r = (r ≡ (failure, t)) × (robflex_event_table_get_ctx t i ≡ none)

module _ {Context : Type 0} (P : ℤ → Type 0) where
  -- Eight entries, no index twice, each index as `P` asks, and their number.
  pub record IsTable (t : Table Context) : Type 0 where
    pub whole : length t.entries ≡ 8
    pub distinct : IsDistinct (used t.entries)
    pub indices : All P (used t.entries)
    pub counted : t.count ≡ pos (length (used t.entries))

  -- A write over an entry of the index.
  put_some :
      (t : Table Context) (i : ℤ) (c : Context) (k : ℕ)
      → IsTable t
      → is_none_idx i ≡ false
      → first (is_entry_of i) t.entries ≡ some k
      → IsTable (put_entry t i c (some k)).1 × Reads t i (some c) (put_entry t i c (some k)).1
  unfolding put_entry
  put_some t i c k h n f =
      let es = change_first (is_entry_of i) (with_ctx c) t.entries in
      let e : change (with_ctx c) k t.entries ≡ es =
        change-first (is_entry_of i) (with_ctx c) t.entries k f in
      rw e (
        record {
          whole = length-change_first (is_entry_of i) (with_ctx c) t.entries ∙ h.whole;
          distinct = rw used-with_ctx h.distinct;
          indices = rw used-with_ctx h.indices;
          counted = rw used-with_ctx h.counted;
        },
        Reads-of_value t (record t { entries = es }) i (some c) n
            (λ j. value-with_ctx i j c t.entries (first-some-value i t.entries k f)),
      )

  -- A write into a free entry, where the index has none.
  put_free :
      (t : Table Context) (i : ℤ) (c : Context) (k : ℕ)
      → IsTable t
      → P i
      → is_none_idx i ≡ false
      → first (is_entry_of i) t.entries ≡ none
      → first is_free t.entries ≡ some k
      → IsTable (take_free t i c (some k)).1 × Reads t i (some c) (take_free t i c (some k)).1
  unfolding take_free
  put_free t i c k h p n f g =
      let es = change_first is_free (taken i c) t.entries in
      let e : change (taken i c) k t.entries ≡ es =
        change-first is_free (taken i c) t.entries k g in
      let absent : value i t.entries ≡ none = first-none-value i t.entries f in
      rw e (
        record {
          whole = length-change_first is_free (taken i c) t.entries ∙ h.whole;
          distinct =
              used-taken-IsDistinct i c t.entries (IsFresh-value i t.entries absent) h.distinct;
          indices = used-taken-All P i c t.entries p h.indices;
          counted = rw (length-used-taken i c t.entries k g, h.counted) refl;
        },
        Reads-of_value t (record { count = increased t.count; entries = es }) i (some c) n
            (λ j. value-taken i j c t.entries k g absent),
      )

  put_new :
      (t : Table Context) (i : ℤ) (c : Context)
      → IsTable t
      → P i
      → is_none_idx i ≡ false
      → first (is_entry_of i) t.entries ≡ none
      → IsTable (put_entry t i c none).1
        × (IsStored t i c (put_entry t i c none) ⊎ IsFull t i (put_entry t i c none))
  unfolding put_entry take_free
  put_new t i c h p n f = elim (Option-cases (first is_free t.entries)) [
    | inl full ↦
        let absent : robflex_event_table_get_ctx t i ≡ none =
          get_ctx_lem t i n ∙ first-none-value i t.entries f in
        let eight : length (used t.entries) ≡ 8 = used_full t.entries full ∙ h.whole in
        rw (full, take_free) (h, inr (refl, absent, h.counted ∙ ap (λ (m : ℕ). pos m) eight))
    | inr (k, found) ↦
        let (kept, reads) = put_free t i c k h p n f found in
        rw (found, take_free) (kept, inl (refl, reads))
  ]

  -- Let `P` be what the indices in use meet. An update of a table with an index above 0 that meets it
  -- either stores the context under that index, leaves every other index as it was and returns 0, or
  -- returns -1 and changes nothing; the latter only if the index has no context yet and eight others are
  -- in use. The table stays well formed: no index stands in it
  -- twice, each meets `P`, and `count` is the number of indices in use.
  pub upsert_refines :
      (t : Table Context) (i : ℤ) (c : Context)
      → IsTable t
      → P i
      → is_none_idx i ≡ false
      → IsTable (robflex_event_table_upsert t i c).1
        × (IsStored t i c (robflex_event_table_upsert t i c)
            ⊎ IsFull t i (robflex_event_table_upsert t i c))
  unfolding robflex_event_table_upsert robflex_event_table_find_entry put_entry
  upsert_refines t i c h p n = elim (Option-cases (first (is_entry_of i) t.entries)) [
    | inl f ↦ rw (robflex_event_table_upsert, n, f) (put_new t i c h p n f)
    | inr (k, f) ↦
        let (kept, reads) = put_some t i c k h n f in
        rw (robflex_event_table_upsert, n, f) (kept, inl (refl, reads))
  ]

  drop_some :
      (t : Table Context) (i : ℤ) (k : ℕ)
      → IsTable t
      → is_none_idx i ≡ false
      → first (is_entry_of i) t.entries ≡ some k
      → IsTable (drop_entry t (some k)).1 × Reads t i none (drop_entry t (some k)).1
  unfolding drop_entry
  drop_some t i k h n f =
      let es = change_first (is_entry_of i) dropped t.entries in
      let e : change dropped k t.entries ≡ es =
        change-first (is_entry_of i) dropped t.entries k f in
      let fewer : suc (length (used es)) ≡ length (used t.entries) =
        length-used-dropped i t.entries k f in
      rw e (
        record {
          whole = length-change_first (is_entry_of i) dropped t.entries ∙ h.whole;
          distinct = used-dropped-IsDistinct i t.entries h.distinct;
          indices = used-dropped-All P i t.entries h.indices;
          counted = rw (h.counted, ← fewer) (ground arith);
        },
        Reads-of_value t
            (record {
              count = if is_positive t.count then decreased t.count else t.count;
              entries = es;
            })
            i none n (λ j. value-dropped i j t.entries h.distinct),
      )

  -- A removal of a valid index from a table removes its context, leaves every other index as it was and
  -- returns 0, or, if the index has no context, returns -1 and changes nothing. The table stays well
  -- formed.
  pub erase_refines :
      (t : Table Context) (i : ℤ)
      → IsTable t
      → is_none_idx i ≡ false
      → IsTable (robflex_event_table_erase t i).1
        × (IsErased t i (robflex_event_table_erase t i)
            ⊎ IsAbsent t i (robflex_event_table_erase t i))
  unfolding robflex_event_table_erase robflex_event_table_find_entry drop_entry
  erase_refines t i h n = elim (Option-cases (first (is_entry_of i) t.entries)) [
    | inl f ↦
        rw (robflex_event_table_erase, n, f)
          (h, inr (refl, get_ctx_lem t i n ∙ first-none-value i t.entries f))
    | inr (k, f) ↦
        let (kept, reads) = drop_some t i k h n f in
        let present : robflex_event_table_get_ctx t i ≢ none =
          λ e. first-some-value i t.entries k f (sym (get_ctx_lem t i n) ∙ e) in
        rw (robflex_event_table_erase, n, f) (kept, inl (refl, present, reads))
  ]
