-- ===== src/Trace/Files.antt =====
-- The lines of a text file, as Python reads them (`readlines`): every end of a line becomes `\n`, and a
-- line keeps its end.
use pmu_roboflex.Prelude.{
  ℕ, ◌≡◌, ◌≢◌, refl, ap, sym, ◌∙◌, Bool, true, false, ◌&&◌, List, [], ◌∷◌, ◌++◌, append_assoc, Text,
  All, if◌then◌else◌, ◌==◌, arith,
}

-- `after_cr` says that the last character was a carriage return.
unfoldable pub newlines : Bool → Text → Text
newlines after_cr [] = []
newlines after_cr (c ∷ s) =
    let plain = newlines false s in
    if c == b'\r'
    then b'\n' ∷ newlines true s
    else if after_cr && c == b'\n'
    then plain
    else c ∷ plain

-- The lines behind the part `line` of a line.
unfoldable pub lines_of : Text → Text → List Text
lines_of [] [] = []
lines_of (c ∷ line) [] = (c ∷ line) ∷ []
lines_of line (c ∷ s) = elim (c == b'\n') [
  | true ↦ (line ++ c ∷ []) ∷ lines_of [] s
  | false ↦ lines_of (line ++ c ∷ []) s
]

unfoldable pub readlines : Text → List Text
readlines text = lines_of [] (newlines false text)

-- Neither `\n` nor `\r`.
abbrev pub IsPlain : ℕ → Type 0
IsPlain c = (c ≢ b'\n') × (c ≢ b'\r')

-- A text of one line, with its end and no other.
pub record IsLine (t : Text) : Type 0 where
  pub body : Text
  pub ends : t ≡ body ++ b'\n' ∷ []
  pub plain : All IsPlain body

newlines-append : (b s : Text) → All IsPlain b → newlines false (b ++ s) ≡ b ++ newlines false s
unfolding newlines
newlines-append [] s h = refl
newlines-append (c ∷ b) s ((hn, hr), hs) = ground (arith, newlines-append b s hs)

line_end : (line s : Text) → lines_of line (b'\n' ∷ s) ≡ (line ++ b'\n' ∷ []) ∷ lines_of [] s
unfolding lines_of
line_end [] s = refl
line_end (c ∷ line) s = refl

line_more :
    (c : ℕ) (line s : Text) → c ≢ b'\n' → lines_of line (c ∷ s) ≡ lines_of (line ++ c ∷ []) s
unfolding lines_of
line_more c [] s h = ground arith
line_more c (d ∷ line) s h = ground arith

lines_of-append :
    (line b s : Text)
    → All IsPlain b
    → lines_of line (b ++ b'\n' ∷ s) ≡ (line ++ (b ++ b'\n' ∷ [])) ∷ lines_of [] s
lines_of-append line [] s h = line_end line s
lines_of-append line (c ∷ b) s ((hn, hr), hs) =
    let more : lines_of (line ++ c ∷ []) (b ++ b'\n' ∷ s)
        ≡ (line ++ (c ∷ (b ++ b'\n' ∷ []))) ∷ lines_of [] s =
      rw append_assoc at (lines_of-append (line ++ c ∷ []) b s hs) in
    line_more c line _ hn ∙ more

newline_kept : (s : Text) → newlines false (b'\n' ∷ s) ≡ b'\n' ∷ newlines false s
unfolding newlines
newline_kept s = refl

-- The first line of a text that begins with a line.
pub readlines-append : (t s : Text) → IsLine t → readlines (t ++ s) ≡ t ∷ readlines s
unfolding readlines
readlines-append t s h =
    let whole : lines_of [] (newlines false (h.body ++ b'\n' ∷ s))
        ≡ (h.body ++ b'\n' ∷ []) ∷ lines_of [] (newlines false s) =
      rw (newlines-append h.body (b'\n' ∷ s) h.plain, newline_kept)
        (lines_of-append [] h.body (newlines false s) h.plain) in
    let joined : t ++ s ≡ h.body ++ b'\n' ∷ s =
      ap (λ u. u ++ s) h.ends ∙ append_assoc h.body (b'\n' ∷ []) s in
    ap readlines joined ∙ whole ∙ ap (λ u. u ∷ readlines s) (sym h.ends)
