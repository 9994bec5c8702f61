-- ===== src/Prelude/Words/Laws.antt =====
-- Laws of splitting at white space.
use Prim.Native.Nat.{ℕ}
use mathlib.Core.Bool.{true, false}
use mathlib.Core.List.{List, [], ◌∷◌, ◌++◌, append_assoc, append-nil}
use mathlib.Core.Path.{◌≡◌, refl, ap, ◌∙◌}
use mathlib.Core.Logic.{◌≢◌, ◌⊎◌, inl, inr}
use native.Mathlib.Omega.{arith}
use pmu_roboflex.Prelude.Tests.{Bool-cases}
use pmu_roboflex.Prelude.Texts.{Text, Lacks}
use pmu_roboflex.Prelude.Lists.{All}
use pmu_roboflex.Prelude.Words.{
  is_space, flush, split_from, split, lstrip, keep_end, rstrip, strip, cut_at, join_words,
}

abbrev pub IsSolid : ℕ → Type 0
IsSolid c = is_space c ≡ false

-- A word: not empty, and with no white space.
abbrev pub IsWord : Text → Type 0
IsWord w = (w ≢ []) × All IsSolid w

split_from_solid :
    (c : ℕ) (word s : Text)
    → is_space c ≡ false
    → split_from word (c ∷ s) ≡ split_from (word ++ c ∷ []) s
unfolding split_from
split_from_solid c word s h = rw (h, split_from)

split_from-append :
    (w word s : Text) → All IsSolid w → split_from word (w ++ s) ≡ split_from (word ++ w) s
split_from-append [] word s h = rw append-nil
split_from-append (c ∷ w) word s (hc, hw) =
    let step : split_from (word ++ c ∷ []) (w ++ s) ≡ split_from (word ++ c ∷ w) s =
      rw append_assoc at (split_from-append w (word ++ c ∷ []) s hw) in
    split_from_solid c word (w ++ s) hc ∙ step

pub split_from_space :
    (c : ℕ) (word s : Text)
    → is_space c ≡ true
    → split_from word (c ∷ s) ≡ flush word (split_from [] s)
unfolding split_from
split_from_space c word s h = rw (h, split_from)

-- A word is followed by white space.
pub split_from-word :
    (w s : Text) (c : ℕ)
    → IsWord w
    → is_space c ≡ true
    → split_from [] (w ++ c ∷ s) ≡ w ∷ split_from [] s
split_from-word [] s c (filled, h) k = absurd (filled refl)
split_from-word (d ∷ w) s c (filled, h) k =
    rw (split_from-append (d ∷ w) [] (c ∷ s) h, split_from_space c (d ∷ w) s k)
      (unfold flush in refl)

pub split_from_last : (w : Text) → IsWord w → split_from [] w ≡ w ∷ []
split_from_last [] (filled, h) = absurd (filled refl)
split_from_last (d ∷ w) (filled, h) =
    let path : split_from [] ((d ∷ w) ++ []) ≡ (d ∷ w) ∷ [] =
      rw (split_from-append (d ∷ w) [] [] h) (unfold split_from in refl) in
    rw append-nil at path

-- Words joined by blanks are split into the same words.
pub split-join_words : (ws : List Text) → All IsWord ws → split (join_words ws) ≡ ws
unfolding split join_words
split-join_words [] h = refl
split-join_words (w ∷ []) (hw, _) = split_from_last w hw
split-join_words (w ∷ v ∷ ws) (hw, hs) =
    split_from-word w _ b' ' hw (unfold is_space in refl)
    ∙ ap (λ t. w ∷ t) (split-join_words (v ∷ ws) hs)

-- The parts of a text behind a first part that holds no separator.
pub cut_at-append :
    (sep : ℕ) (p part s : Text) → Lacks sep p → cut_at sep part (p ++ s) ≡ cut_at sep (part ++ p) s
unfolding cut_at
cut_at-append sep [] part s h = rw append-nil
cut_at-append sep (c ∷ p) part s (hc, hp) =
    ground (arith, cut_at-append sep p (part ++ c ∷ []) s hp, append_assoc part (c ∷ []) p)

split_from_blank : (c : ℕ) (s : Text) → is_space c ≡ true → split_from [] (c ∷ s) ≡ split_from [] s
split_from_blank c s h = rw (split_from_space c [] s h) (unfold flush in refl)

lstrip_blank : (c : ℕ) (s : Text) → is_space c ≡ true → lstrip (c ∷ s) ≡ lstrip s
unfolding lstrip
lstrip_blank c s h = rw h

pub lstrip_solid : (c : ℕ) (s : Text) → IsSolid c → lstrip (c ∷ s) ≡ c ∷ s
unfolding lstrip
lstrip_solid c s h = rw h

split_from-lstrip : (s : Text) → split_from [] (lstrip s) ≡ split_from [] s
split_from-lstrip [] = unfold lstrip in refl
split_from-lstrip (c ∷ s) = elim (Bool-cases (is_space c)) [
  | inl blank ↦ rw (split_from_blank c s blank, lstrip_blank c s blank) (split_from-lstrip s)
  | inr solid ↦ rw (lstrip_solid c s solid)
]

split_from-keep_end :
    (c : ℕ) (t word : Text) → split_from word (keep_end c t) ≡ split_from word (c ∷ t)
split_from-keep_end c (d ∷ t) word = unfold keep_end in refl
split_from-keep_end c [] word = elim (Bool-cases (is_space c)) [
  | inl blank ↦ rw (split_from_space c word [] blank) (unfold keep_end split_from in rw blank)
  | inr solid ↦ unfold keep_end in rw solid
]

pub split_from-cons :
    (c : ℕ) (s t : Text)
    → ((word : Text) → split_from word s ≡ split_from word t)
    → (word : Text) → split_from word (c ∷ s) ≡ split_from word (c ∷ t)
unfolding split_from
split_from-cons c s t h word = ground (arith, h [], h (word ++ c ∷ []))

split_from-rstrip : (s word : Text) → split_from word (rstrip s) ≡ split_from word s
split_from-rstrip [] word = unfold rstrip in refl
split_from-rstrip (c ∷ s) word =
    let ends : split_from word (rstrip (c ∷ s)) ≡ split_from word (c ∷ rstrip s) =
      unfold rstrip in split_from-keep_end c (rstrip s) word in
    ends ∙ split_from-cons c (rstrip s) s (split_from-rstrip s) word

-- Blanks at the ends do not change the words.
pub split-strip : (s : Text) → split (strip s) ≡ split s
unfolding split strip
split-strip s = split_from-rstrip (lstrip s) [] ∙ split_from-lstrip s

pub keep_end_solid : (c : ℕ) (t : Text) → IsSolid c → keep_end c t ≡ c ∷ t
unfolding keep_end
keep_end_solid c [] h = rw h
keep_end_solid c (d ∷ t) h = refl

-- A text that does not begin with white space keeps its first character.
pub strip_solid : (c : ℕ) (s : Text) → IsSolid c → strip (c ∷ s) ≡ c ∷ rstrip s
unfolding strip rstrip
strip_solid c s h = rw (lstrip_solid c s h) (keep_end_solid c (rstrip s) h)

flush-cons : (d : ℕ) (w : Text) (ws : List Text) → flush (d ∷ w) ws ≡ (d ∷ w) ∷ ws
unfolding flush
flush-cons d w ws = refl

-- A word that has begun is a word of the result, with the same first character.
split_from-head :
    (d : ℕ) (s w : Text) → (w' : Text) × (ws : List Text) × (split_from (d ∷ w) s ≡ (d ∷ w') ∷ ws)
split_from-head d [] w = (w, [], unfold split_from flush in refl)
split_from-head d (c ∷ s) w = elim (Bool-cases (is_space c)) [
  | inl blank ↦
      (w, split_from [] s, split_from_space c (d ∷ w) s blank ∙ flush-cons d w (split_from [] s))
  | inr solid ↦ rw (split_from_solid c (d ∷ w) s solid) (split_from-head d s (w ++ c ∷ []))
]

-- A text without the white space at its start is empty or begins with a solid character.
lstrip-cases :
    (s : Text) → (lstrip s ≡ []) ⊎ ((c : ℕ) × (t : Text) × (lstrip s ≡ c ∷ t) × IsSolid c)
lstrip-cases [] = unfold lstrip in inl refl
lstrip-cases (c ∷ s) = elim (Bool-cases (is_space c)) [
  | inl blank ↦ rw (lstrip_blank c s blank) (lstrip-cases s)
  | inr solid ↦ inr (c, s, lstrip_solid c s solid, solid)
]

first_char :
    (c d : ℕ) (w t : Text) (rest : List Text)
    → split_from [] (d ∷ t) ≡ (c ∷ w) ∷ rest
    → IsSolid d
    → d ≡ c
first_char c d w t rest words solid =
    let (w', ws, e) = split_from-head d t [] in cc (e, words, split_from_solid d [] t solid)

no_word : {w : Text} {ws : List Text} → split_from [] [] ≡ w ∷ ws → ⊥
unfolding split_from flush
no_word h = cc

lstripped : (s : Text) {ws : List Text} → split s ≡ ws → split_from [] (lstrip s) ≡ ws
unfolding split
lstripped s words = split_from-lstrip s ∙ words

strip-lstrip : (s : Text) (d : ℕ) (t : Text) → lstrip s ≡ d ∷ t → IsSolid d → strip s ≡ d ∷ rstrip t
strip-lstrip s d t e solid =
    let ends : rstrip (d ∷ t) ≡ d ∷ rstrip t = unfold rstrip in keep_end_solid d (rstrip t) solid in
    unfold strip in rw e ends

-- The stripped text begins with the first character of the first word.
pub strip-first_word :
    (s : Text) (c : ℕ) (w : Text) (rest : List Text)
    → split s ≡ (c ∷ w) ∷ rest
    → (t : Text) × (strip s ≡ c ∷ t)
strip-first_word s c w rest words = elim (lstrip-cases s) [
  | inl empty ↦ absurd (no_word (rw empty at (lstripped s words)))
  | inr (d, t, e, solid) ↦
      let same : d ≡ c = first_char c d w t rest (rw e at (lstripped s words)) solid in
      (rstrip t, rw (← same) (strip-lstrip s d t e solid))
]
