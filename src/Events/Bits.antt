-- ===== src/Events/Bits.antt =====
-- The event bits of inc/robflex_def.h against a set of indices.
use Prim.Native.Nat.{bit_and, bit_or}
use pmu_roboflex.Prelude.{
  ℕ, zero, suc, ◌/◌, ◌%◌, ◌^◌, ◌<◌, ◌≡◌, refl, Bool, true, false, not, ◌&&◌, Option, none, some, [],
  ◌∷◌, leb, ◌==◌, if◌then◌else◌, length, All, arith, Bool-cases, inl, inr, ap, ◌∙◌,
}
use pmu_roboflex.Prelude.Int.{ℤ, pos, negsuc, pos_part, beq_int}
use pmu_roboflex.Prelude.Bits.{
  bit, bit-zero, complement, bit-or, bit-and, bit-one_hot, bit-complement_one_hot, bit_and-one_hot,
}
use pmu_roboflex.Events.{
  EventBits, change_word, load_word, is_no_index, set_event_bit, unset_event_bit, test_event_bit,
  word_of, no_event,
}

-- The words cover the indices below 1024.
abbrev pub IsWhole : EventBits → Type 0
IsWhole words = length words ≡ 16

pub length-change_word :
    (f : ℕ → ℕ) (wi : ℕ) (words : EventBits) → length (change_word f wi words) ≡ length words
unfolding change_word
length-change_word f wi [] = refl
length-change_word f zero (w ∷ words) = refl
length-change_word f (suc wi) (w ∷ words) = ap (λ (n : ℕ). suc n) (length-change_word f wi words)

load_word-change_word :
    (f : ℕ → ℕ) (wi vi : ℕ) (words : EventBits)
    → wi < length words
    → load_word vi (change_word f wi words)
      ≡ (if wi == vi then f (load_word vi words) else load_word vi words)
unfolding load_word change_word
load_word-change_word f wi vi [] h = absurd (omega arith)
load_word-change_word f zero zero (w ∷ words) h = refl
load_word-change_word f zero (suc vi) (w ∷ words) h = ground arith
load_word-change_word f (suc wi) zero (w ∷ words) h = ground arith
load_word-change_word f (suc wi) (suc vi) (w ∷ words) h =
    ground (arith, load_word-change_word f wi vi words (omega arith))

-- A bit of the words, by its index.
abbrev bit_at : EventBits → ℕ → Bool
bit_at words i = bit (load_word (i / 64) words) (i % 64)

not-not : (b : Bool) → not (not b) ≡ b
not-not true = refl
not-not false = refl

test_word : (w k : ℕ) → not (bit_and w (2 ^ k) == 0) ≡ bit w k
test_word w k = rw bit_and-one_hot (not-not (bit w k))

-- Two indices with one word and one place in it are equal.
same_place : (i j : ℕ) → ((i / 64 == j / 64) && (i % 64 == j % 64)) ≡ (i == j)
same_place i j = ground arith

bit_at-set :
    (words : EventBits) (i j : ℕ)
    → i / 64 < length words
    → bit_at (change_word (λ w. bit_or w (2 ^ (i % 64))) (i / 64) words) j
      ≡ (if i == j then true else bit_at words j)
bit_at-set words i j h =
    rw
      (
        load_word-change_word (λ w. bit_or w (2 ^ (i % 64))) (i / 64) (j / 64) words h,
        ← same_place i j,
      )
      (ground (
        arith,
        bit-or (load_word (j / 64) words) (2 ^ (i % 64)) (j % 64),
        bit-one_hot (i % 64) (j % 64),
      ))

bit_at-unset :
    (words : EventBits) (i j : ℕ)
    → i / 64 < length words
    → bit_at (change_word (λ w. bit_and w (complement 64 (2 ^ (i % 64)))) (i / 64) words) j
      ≡ (if i == j then false else bit_at words j)
bit_at-unset words i j h =
    rw
      (
        load_word-change_word (λ w. bit_and w (complement 64 (2 ^ (i % 64)))) (i / 64) (j / 64)
            words h,
        ← same_place i j,
      )
      (ground (
        arith,
        bit-and (load_word (j / 64) words) (complement 64 (2 ^ (i % 64))) (j % 64),
        bit-complement_one_hot 64 (i % 64) (j % 64) (omega arith) (omega arith),
      ))

test_event_bit_lem :
    (words : EventBits) (j : ℤ)
    → test_event_bit (some words) j ≡ (if is_no_index j then false else bit_at words (pos_part j))
unfolding test_event_bit
test_event_bit_lem words j = rw test_word refl

-- An index of an event.
abbrev pub is_index : ℤ → Bool
is_index i = not (is_no_index i)

leb→small : (i : ℕ) → leb 1024 i ≡ false → i < 1024
leb→small i h = ground arith

-- What an operation that changes one word does to every test.
module _ (words : EventBits) (h : IsWhole words) (f : ℕ → ℕ → ℕ) (b : Bool)
    (at : (i j : ℕ)
      → i / 64 < length words
      → bit_at (change_word (f i) (i / 64) words) j ≡ (if i == j then b else bit_at words j)) where
  test-changed :
      (i : ℕ) (j : ℤ)
      → i < 1024
      → test_event_bit (some (change_word (f i) (i / 64) words)) j
        ≡ (if beq_int (pos i) j then b else test_event_bit (some words) j)
  unfolding is_no_index
  test-changed i (pos j) g =
      rw test_event_bit_lem (ground (arith, at i j (omega arith), test_event_bit_lem words (pos j)))
  test-changed i (negsuc j) g = rw (test_event_bit_lem, test_event_bit_lem) (ground arith)

set-test :
    (words : EventBits) (i j : ℤ)
    → IsWhole words
    → test_event_bit (set_event_bit (some words) i).1 j
      ≡ (if is_index i && beq_int i j then true else test_event_bit (some words) j)
unfolding set_event_bit is_no_index
set-test words (negsuc i) j h = refl
set-test words (pos i) j h = elim (Bool-cases (leb 1024 i)) [
  | inl big ↦ rw big refl
  | inr small ↦ rw small (
      test-changed words h (λ i w. bit_or w (2 ^ (i % 64))) true (bit_at-set words) i j
        (leb→small i small))
]

unset-test :
    (words : EventBits) (i j : ℤ)
    → IsWhole words
    → test_event_bit (unset_event_bit (some words) i).1 j
      ≡ (if is_index i && beq_int i j then false else test_event_bit (some words) j)
unfolding unset_event_bit is_no_index
unset-test words (negsuc i) j h = refl
unset-test words (pos i) j h = elim (Bool-cases (leb 1024 i)) [
  | inl big ↦ rw big refl
  | inr small ↦ rw small (
      test-changed words h (λ i w. bit_and w (complement 64 (2 ^ (i % 64)))) false
        (bit_at-unset words) i j (leb→small i small))
]

-- The memory is mapped and has all its words.
abbrev pub IsMapped : Option EventBits → Type 0
IsMapped none = ⊥
IsMapped (some words) = IsWhole words

pub set-IsMapped : (m : Option EventBits) (i : ℤ) → IsMapped m → IsMapped (set_event_bit m i).1
unfolding set_event_bit
set-IsMapped none i h = absurd h
set-IsMapped (some words) i h = elim (Bool-cases (is_no_index i)) [
  | inl e ↦ rw e h
  | inr e ↦ rw e (length-change_word _ (word_of i) words ∙ h)
]

pub unset-IsMapped : (m : Option EventBits) (i : ℤ) → IsMapped m → IsMapped (unset_event_bit m i).1
unfolding unset_event_bit
unset-IsMapped none i h = absurd h
unset-IsMapped (some words) i h = elim (Bool-cases (is_no_index i)) [
  | inl e ↦ rw e h
  | inr e ↦ rw e (length-change_word _ (word_of i) words ∙ h)
]

set-returns :
    (words : EventBits) (i : ℤ)
    → (set_event_bit (some words) i).0 ≡ (if is_index i then pos 0 else negsuc 0)
unfolding set_event_bit
set-returns words i = elim (Bool-cases (is_no_index i)) [ inl e ↦ rw e refl | inr e ↦ rw e refl ]

unset-returns :
    (words : EventBits) (i : ℤ)
    → (unset_event_bit (some words) i).0 ≡ (if is_index i then pos 0 else negsuc 0)
unfolding unset_event_bit
unset-returns words i = elim (Bool-cases (is_no_index i)) [ inl e ↦ rw e refl | inr e ↦ rw e refl ]

-- On a mapped memory the event bits are a set of the indices from 0 to 1023: setting and clearing an
-- index of that range return 0 and insert or remove exactly that index, so that every test of another
-- index is as before; any other index returns -1 and changes no test.
pub event_bits_refine :
    (m : Option EventBits) (i j : ℤ)
    → IsMapped m
    → ((set_event_bit m i).0 ≡ (if is_index i then pos 0 else negsuc 0))
      × (test_event_bit (set_event_bit m i).1 j
          ≡ (if is_index i && beq_int i j then true else test_event_bit m j))
      × ((unset_event_bit m i).0 ≡ (if is_index i then pos 0 else negsuc 0))
      × (test_event_bit (unset_event_bit m i).1 j
          ≡ (if is_index i && beq_int i j then false else test_event_bit m j))
event_bits_refine none i j h = absurd h
event_bits_refine (some words) i j h =
    (set-returns words i, set-test words i j h, unset-returns words i, unset-test words i j h)

load_word-zeros : (wi : ℕ) (words : EventBits) → All (λ w. w ≡ 0) words → load_word wi words ≡ 0
unfolding load_word
load_word-zeros wi [] h = refl
load_word-zeros zero (w ∷ words) (e, h) = e
load_word-zeros (suc wi) (w ∷ words) (e, h) = load_word-zeros wi words h

-- Zeroed words hold no event.
pub test-no_event : (j : ℤ) → test_event_bit (some no_event) j ≡ false
test-no_event j =
    rw (test_event_bit_lem, load_word-zeros (word_of j) no_event (omega arith))
      (ground (arith, bit-zero (pos_part j % 64)))
