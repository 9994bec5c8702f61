-- ===== src/EventChange/Lines.antt =====
-- Single lines in benchmark/robflex_event_change/robflex_event_change.py: the words of a line, and the
-- commands that end the loop.
use pmu_roboflex.Prelude.{
  ℕ, ◌≡◌, refl, ==_iff, subst, sym, ◌∙◌, true, false, Bool-cases, inl, inr, List, [], ◌∷◌, ◌++◌,
  Text, codes, arith, ◌==◌,
}
use pmu_roboflex.Prelude.Int.{ℤ, pos}
use pmu_roboflex.Prelude.Decimal.{str_int}
use pmu_roboflex.Prelude.Decimal.RoundTrip.{parse_int-str_int}
use pmu_roboflex.Prelude.Words.{split, lower}
use pmu_roboflex.Prelude.Words.Laws.{split-strip, strip-first_word}
use pmu_roboflex.Client.{Net}
use pmu_roboflex.EventChange.{
  Shell, apply_on, cancel_on, handle_apply, handle_cancel, parse_int_or, is_quit, is_help, dispatch,
  handle_parts, handle_line, Input, line, interrupt, handle_raw, loop,
}

-- A line whose first word does not begin with `#` is handled by its words.
handle_raw-parts :
    (net : Net) (raw : Text) (c : ℕ) (w : Text) (rest : List Text) (s : Shell)
    → split raw ≡ (c ∷ w) ∷ rest
    → (b'#' == c) ≡ false
    → handle_raw net raw s ≡ handle_parts net ((c ∷ w) ∷ rest) s
handle_raw-parts net raw c w rest s words k =
    let (t, e) = strip-first_word raw c w rest words in
    let words' : split (c ∷ t) ≡ (c ∷ w) ∷ rest = rw (e, words) at (split-strip raw) in
    unfold handle_raw handle_line in rw (e, k, words')

parse_int_or-str_int : (i default : ℤ) → parse_int_or (str_int i) default ≡ i
unfolding parse_int_or
parse_int_or-str_int i default = rw (parse_int-str_int i, parse_int_or)

apply_words :
    (net : Net) (name : Text) (timeout strength : ℤ) (more : List Text) (s : Shell)
    → handle_parts net (codes "apply" ∷ name ∷ str_int timeout ∷ str_int strength ∷ more) s
      ≡ (true, apply_on net name timeout strength s)
unfolding handle_parts handle_apply dispatch is_quit is_help lower
apply_words net name timeout strength more s =
    rw (parse_int_or-str_int timeout (pos 0), parse_int_or-str_int strength (pos 1))

cancel_words :
    (net : Net) (name : Text) (strength : ℤ) (more : List Text) (s : Shell)
    → handle_parts net (codes "cancel" ∷ name ∷ str_int strength ∷ more) s
      ≡ (true, cancel_on net name strength s)
unfolding handle_parts handle_cancel dispatch is_quit is_help lower
cancel_words net name strength more s = rw (parse_int_or-str_int strength (pos 1))

-- A line whose words are `apply`, a name, and the decimal spellings of a timeout and of a strength
-- is one call of robflex_apply_event with these, wherever its blanks stand, and the loop goes on.
-- Further words are ignored.
pub handle_raw_apply :
    (net : Net) (raw name : Text) (timeout strength : ℤ) (more : List Text) (s : Shell)
    → split raw ≡ codes "apply" ∷ name ∷ str_int timeout ∷ str_int strength ∷ more
    → handle_raw net raw s ≡ (true, apply_on net name timeout strength s)
handle_raw_apply net raw name timeout strength more s words =
    handle_raw-parts net raw _ _ _ s words refl ∙ apply_words net name timeout strength more s

-- A line whose words are `cancel`, a name, and the decimal spelling of a strength is one call of
-- robflex_cancel_event with these, wherever its blanks stand, and the loop goes on. Further words are
-- ignored.
pub handle_raw_cancel :
    (net : Net) (raw name : Text) (strength : ℤ) (more : List Text) (s : Shell)
    → split raw ≡ codes "cancel" ∷ name ∷ str_int strength ∷ more
    → handle_raw net raw s ≡ (true, cancel_on net name strength s)
handle_raw_cancel net raw name strength more s words =
    handle_raw-parts net raw _ _ _ s words refl ∙ cancel_words net name strength more s

sharp_word : (w : Text) → is_quit (lower (b'#' ∷ w)) ≡ true → ⊥
unfolding is_quit lower
sharp_word w h = cc

no_quit : is_quit (lower []) ≡ true → ⊥
unfolding is_quit lower
no_quit h = cc

-- A word that ends the loop begins with no `#`.
quit_word : (c : ℕ) (w : Text) → is_quit (lower (c ∷ w)) ≡ true → (b'#' == c) ≡ false
quit_word c w h = elim (Bool-cases (b'#' == c)) [
  | inl sharp ↦
      absurd (
        sharp_word w
          (subst (λ d. is_quit (lower (d ∷ w)) ≡ true) (sym ((==_iff b'#' c).0 sharp)) h))
  | inr other ↦ other
]

handle_raw_quit :
    (net : Net) (raw cmd : Text) (rest : List Text) (s : Shell)
    → split raw ≡ cmd ∷ rest
    → is_quit (lower cmd) ≡ true
    → handle_raw net raw s ≡ (false, s)
handle_raw_quit net raw [] rest s words quits = absurd (no_quit quits)
handle_raw_quit net raw (c ∷ w) rest s words quits =
    handle_raw-parts net raw c w rest s words (quit_word c w quits)
    ∙ (unfold handle_parts dispatch in rw quits)

-- A line whose first word is `quit`, `exit` or `q`, in any case of its letters, ends the loop, whatever
-- words follow it: nothing behind it is read.
pub loop_quits :
    (net : Net) (before after : List Input) (raw cmd : Text) (rest : List Text) (s : Shell)
    → split raw ≡ cmd ∷ rest
    → is_quit (lower cmd) ≡ true
    → loop net (before ++ line raw ∷ after) s ≡ loop net (before ++ line raw ∷ []) s
unfolding loop
loop_quits net [] after raw cmd rest s words quits =
    rw (handle_raw_quit net raw cmd rest s words quits, loop)
loop_quits net (interrupt ∷ before) after raw cmd rest s words quits = refl
loop_quits net (line first ∷ before) after raw cmd rest s words quits =
    ground (arith, loop_quits net before after raw cmd rest (handle_raw net first s).1 words quits)
