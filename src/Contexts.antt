-- ===== src/Contexts.antt =====
-- The table of the contexts that a thread has attached to events: `EventContextTable` of
-- inc/robflex_def.h (the build without khash) and the functions of src/robflex_api.c that use it. The
-- table and the context behind a pointer are there: each caller passes the address of its own.
pub mod Slots
pub mod Indices
pub mod Laws
pub mod Bounded
pub mod Types
pub mod Attach
use pmu_roboflex.Prelude.{
  ℕ, zero, suc, ◌-◌, ◌≡◌, refl, Bool, true, false, not, ◌&&◌, Option, none, some, List, [], ◌∷◌,
  Text, if◌then◌else◌, ◌==◌,
}
use pmu_roboflex.Prelude.Int.{
  ℤ, pos, negsuc, pos_part, is_zero, is_negative, beq_int, difference, neg_part,
}
use pmu_roboflex.Events.{robflex_get_event_idx}

pub record Entry (Context : Type 0) : Type 0 where
  pub event_idx : ℤ
  pub in_use : Bool
  pub ctx : Context

-- `entries` has eight items.
pub record Table (Context : Type 0) : Type 0 where
  pub count : ℤ
  pub entries : List (Entry Context)

abbrev pub max_local_event_ctx : ℕ
max_local_event_ctx = 8

abbrev pub event_none : ℤ
event_none = pos 0

-- `event_idx <= ROBFLEX_EVENT_NONE`.
abbrev pub is_none_idx : ℤ → Bool
is_none_idx (pos n) = n == 0
is_none_idx (negsuc n) = true

abbrev pub success : ℤ
success = pos 0

abbrev pub failure : ℤ
failure = negsuc 0

-- `count++` and `count--`.
abbrev pub increased : ℤ → ℤ
increased (pos n) = pos (suc n)
increased (negsuc zero) = pos 0
increased (negsuc (suc n)) = negsuc n

abbrev pub is_positive : ℤ → Bool
is_positive (pos n) = not (n == 0)
is_positive (negsuc n) = false

abbrev pub decreased : ℤ → ℤ
decreased n = pos (pos_part n - 1)

abbrev pub bump : Option ℕ → Option ℕ
bump none = none
bump (some i) = some (suc i)

module _ {Context : Type 0} where
  unfoldable pub cleared : List (Entry Context) → List (Entry Context)
  cleared [] = []
  cleared (e ∷ es) = record e { event_idx = event_none; in_use = false } ∷ cleared es

  unfoldable pub robflex_event_table_init : Table Context → Table Context
  unfolding cleared
  robflex_event_table_init table = record { count = pos 0; entries = cleared table.entries }

  -- The loops over the entries: the first index at which the test holds.
  unfoldable pub first : (Entry Context → Bool) → List (Entry Context) → Option ℕ
  first test [] = none
  first test (e ∷ es) = if test e then some 0 else bump (first test es)

  -- A write through a pointer to the i-th entry, and a read.
  unfoldable pub change :
      (Entry Context → Entry Context) → ℕ → List (Entry Context) → List (Entry Context)
  change f i [] = []
  change f zero (e ∷ es) = f e ∷ es
  change f (suc i) (e ∷ es) = e ∷ change f i es

  unfoldable pub ctx_at : ℕ → List (Entry Context) → Option Context
  ctx_at i [] = none
  ctx_at zero (e ∷ es) = some e.ctx
  ctx_at (suc i) (e ∷ es) = ctx_at i es

  abbrev pub is_entry_of : ℤ → Entry Context → Bool
  is_entry_of event_idx e = e.in_use && beq_int e.event_idx event_idx

  abbrev pub is_free : Entry Context → Bool
  is_free e = not e.in_use

  unfoldable pub robflex_event_table_find_entry : Table Context → ℤ → Option ℕ
  unfolding first
  robflex_event_table_find_entry table event_idx =
      if is_none_idx event_idx then none else first (is_entry_of event_idx) table.entries

  -- The second loop: the first entry that is not in use is taken.
  unfoldable pub take_free : Table Context → ℤ → Context → Option ℕ → ℤ × Table Context
  unfolding change
  take_free table event_idx ctx none = (failure, table)
  take_free table event_idx ctx (some i) = (
    success,
    record {
      count = increased table.count;
      entries =
          change (λ e. record { event_idx = event_idx; in_use = true; ctx = ctx }) i table.entries;
    },
  )

  unfoldable pub put_entry : Table Context → ℤ → Context → Option ℕ → ℤ × Table Context
  unfolding change first take_free
  put_entry table event_idx ctx (some i) =
      (success, record table { entries = change (λ e. record e { ctx = ctx }) i table.entries })
  put_entry table event_idx ctx none = take_free table event_idx ctx (first is_free table.entries)

  unfoldable pub robflex_event_table_upsert : Table Context → ℤ → Context → ℤ × Table Context
  unfolding robflex_event_table_find_entry put_entry
  robflex_event_table_upsert table event_idx ctx =
      if is_none_idx event_idx
      then (failure, table)
      else put_entry table event_idx ctx (robflex_event_table_find_entry table event_idx)

  unfoldable pub drop_entry : Table Context → Option ℕ → ℤ × Table Context
  unfolding change
  drop_entry table none = (failure, table)
  drop_entry table (some i) = (
    success,
    record {
      count = if is_positive table.count then decreased table.count else table.count;
      entries = change (λ e. record e { in_use = false; event_idx = event_none }) i table.entries;
    },
  )

  unfoldable pub robflex_event_table_erase : Table Context → ℤ → ℤ × Table Context
  unfolding robflex_event_table_find_entry drop_entry
  robflex_event_table_erase table event_idx =
      drop_entry table (robflex_event_table_find_entry table event_idx)

  -- The context behind a pointer to an entry.
  abbrev pub read_at : Option ℕ → List (Entry Context) → Option Context
  read_at none es = none
  read_at (some i) es = ctx_at i es

  unfoldable pub robflex_event_table_get_ctx : Table Context → ℤ → Option Context
  unfolding robflex_event_table_find_entry ctx_at
  robflex_event_table_get_ctx table event_idx =
      read_at (robflex_event_table_find_entry table event_idx) table.entries
