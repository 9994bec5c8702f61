-- ===== src/Events.antt =====
-- The events: the names of inc/robflex_event.h, and the event bits in the shared memory
-- (`SystemData.event_bits` and its three operations, inc/robflex_def.h).
pub mod Bits
pub mod Names
use Prim.Native.Nat.{bit_and, bit_or}
use pmu_roboflex.Prelude.{
  ℕ, zero, suc, ◌+◌, ◌/◌, ◌%◌, ◌^◌, ◌≡◌, refl, Bool, false, not, ◌||◌, Option, none, some, List, [],
  ◌∷◌, Text, codes, text_beq, leb, ◌==◌, if◌then◌else◌, get_elem?, length,
}
use pmu_roboflex.Prelude.Int.{ℤ, pos, negsuc, pos_part, is_negative, beq_int}
use pmu_roboflex.Prelude.Bits.{complement}

abbrev pub robflex_event_name_list : List Text
robflex_event_name_list =
    codes "obstacle_dense"
    ∷ codes "pedestrian_dense"
    ∷ codes "high_speed"
    ∷ codes "cruise_normal"
    ∷ codes "stationary"
    ∷ codes "interaction"
    ∷ codes "awaiting_command"
    ∷ codes "emergency_stop"
    ∷ []

-- ROBFLEX_EVENT_NONE.
abbrev pub event_none : ℕ
event_none = 0

-- The loop over the table, from index i.
unfoldable pub index_from : ℕ → List Text → Text → ℕ
index_from i [] event_name = event_none
index_from i (name ∷ names) event_name =
    if text_beq event_name name then i + 1 else index_from (i + 1) names event_name

-- `none` is NULL.
unfoldable pub robflex_get_event_idx : Option Text → ℕ
unfolding index_from
robflex_get_event_idx none = event_none
robflex_get_event_idx (some event_name) = index_from 0 robflex_event_name_list event_name

abbrev pub max_event_num : ℕ
max_event_num = 1024

abbrev pub word_bits : ℕ
word_bits = 64

-- The sixteen words of `event_bits`; each atomic operation on a word is one step.
abbrev pub EventBits : Type 0
EventBits = List ℕ

abbrev pub no_event : EventBits
no_event = 0 ∷ 0 ∷ 0 ∷ 0 ∷ 0 ∷ 0 ∷ 0 ∷ 0 ∷ 0 ∷ 0 ∷ 0 ∷ 0 ∷ 0 ∷ 0 ∷ 0 ∷ 0 ∷ []

-- A change of one word of the array.
unfoldable pub change_word : (ℕ → ℕ) → ℕ → EventBits → EventBits
change_word f wi [] = []
change_word f zero (w ∷ words) = f w ∷ words
change_word f (suc wi) (w ∷ words) = w ∷ change_word f wi words

unfoldable pub load_word : ℕ → EventBits → ℕ
load_word wi [] = 0
load_word zero (w ∷ words) = w
load_word (suc wi) (w ∷ words) = load_word wi words

-- `event_idx < 0 || event_idx >= MAX_EVENT_NUM`.
unfoldable pub is_no_index : ℤ → Bool
is_no_index event_idx = is_negative event_idx || leb max_event_num (pos_part event_idx)

-- `mask = 1 << (event_idx % 64)`, and the word that it is for.
abbrev pub mask_of : ℤ → ℕ
mask_of event_idx = 2 ^ (pos_part event_idx % word_bits)

abbrev pub word_of : ℤ → ℕ
word_of event_idx = pos_part event_idx / word_bits

-- A pointer to the shared memory is `none` when it is NULL. The result is the returned value and the
-- memory behind the pointer.
unfoldable pub set_event_bit : Option EventBits → ℤ → ℤ × Option EventBits
unfolding is_no_index change_word
set_event_bit none event_idx = (negsuc 0, none)
set_event_bit (some words) event_idx =
    if is_no_index event_idx
    then (negsuc 0, some words)
    else (pos 0, some (change_word (λ w. bit_or w (mask_of event_idx)) (word_of event_idx) words))

unfoldable pub unset_event_bit : Option EventBits → ℤ → ℤ × Option EventBits
unfolding is_no_index change_word
unset_event_bit none event_idx = (negsuc 0, none)
unset_event_bit (some words) event_idx = if is_no_index event_idx then (negsuc 0, some words) else (
  pos 0,
  some (
      change_word (λ w. bit_and w (complement word_bits (mask_of event_idx))) (word_of event_idx)
        words),
)

unfoldable pub test_event_bit : Option EventBits → ℤ → Bool
unfolding is_no_index load_word
test_event_bit none event_idx = false
test_event_bit (some words) event_idx =
    if is_no_index event_idx
    then false
    else not (bit_and (load_word (word_of event_idx) words) (mask_of event_idx) == 0)

-- The library's own test: only -1 is a missing index, and `none` is a read outside of the array, which has
-- no defined result.
unfoldable pub robflex_test_event : EventBits → ℤ → Option Bool
unfolding is_no_index load_word
robflex_test_event words event_idx =
    if beq_int event_idx (negsuc 0)
    then some false
    else if is_no_index event_idx
    then none
    else some (not (bit_and (load_word (word_of event_idx) words) (mask_of event_idx) == 0))
