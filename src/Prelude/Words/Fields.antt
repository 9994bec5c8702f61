-- ===== src/Prelude/Words/Fields.antt =====
-- Fields between separators, and lines with their end.
use Prim.Native.Nat.{ℕ}
use mathlib.Core.Bool.{true}
use mathlib.Core.List.{List, [], ◌∷◌, ◌++◌, append-nil}
use mathlib.Core.Path.{◌≡◌, refl, ap, ◌∙◌}
use native.Mathlib.Omega.{arith}
use pmu_roboflex.Prelude.Texts.{Text, Lacks}
use pmu_roboflex.Prelude.Lists.{All, All-append}
use pmu_roboflex.Prelude.Words.{is_space, lstrip, rstrip, keep_end, strip, cut_at, split_at}
use pmu_roboflex.Prelude.Words.Laws.{IsSolid, cut_at-append, keep_end_solid, lstrip_solid}

-- The fields with `sep` between them.
abbrev pub join_at : ℕ → List Text → Text
join_at sep [] = []
join_at sep (w ∷ []) = w
join_at sep (w ∷ v ∷ ws) = w ++ sep ∷ join_at sep (v ∷ ws)

cut_at_sep : (sep : ℕ) (part s : Text) → cut_at sep part (sep ∷ s) ≡ part ∷ cut_at sep [] s
unfolding cut_at
cut_at_sep sep part s = ground arith

cut_at_last : (sep : ℕ) (part w : Text) → Lacks sep w → cut_at sep part w ≡ (part ++ w) ∷ []
cut_at_last sep part w h =
    let whole : cut_at sep part (w ++ []) ≡ (part ++ w) ∷ [] =
      cut_at-append sep w part [] h ∙ (unfold cut_at in refl) in
    rw append-nil at whole

cut_at-join_at :
    (sep : ℕ) (part w : Text) (ws : List Text)
    → All (Lacks sep) (w ∷ ws)
    → cut_at sep part (join_at sep (w ∷ ws)) ≡ (part ++ w) ∷ ws
cut_at-join_at sep part w [] (hw, _) = cut_at_last sep part w hw
cut_at-join_at sep part w (v ∷ ws) (hw, hs) =
    cut_at-append sep w part _ hw
    ∙ cut_at_sep sep (part ++ w) _
    ∙ ap (λ t. (part ++ w) ∷ t) (cut_at-join_at sep [] v ws hs)

-- Joined fields are split into the same fields, if none holds the separator.
pub split_at-join_at :
    (sep : ℕ) (w : Text) (ws : List Text)
    → All (Lacks sep) (w ∷ ws)
    → split_at sep (join_at sep (w ∷ ws)) ≡ w ∷ ws
unfolding split_at
split_at-join_at sep w ws h = cut_at-join_at sep [] w ws h

rstrip_end : (t : Text) (c : ℕ) → All IsSolid t → is_space c ≡ true → rstrip (t ++ c ∷ []) ≡ t
unfolding rstrip
rstrip_end [] c _ h = unfold keep_end in rw h
rstrip_end (d ∷ t) c (hd, ht) h = rw (rstrip_end t c ht h) (keep_end_solid d t hd)

-- A line without white space is stripped to itself without its end.
pub strip_line : (t : Text) → All IsSolid t → strip (t ++ b'\n' ∷ []) ≡ t
strip_line [] h = unfold strip lstrip rstrip is_space in refl
strip_line (c ∷ t) (hc, ht) =
    unfold strip in
    rw (lstrip_solid c (t ++ b'\n' ∷ []) hc)
      (rstrip_end (c ∷ t) b'\n' (hc, ht) (unfold is_space in refl))

pub join_at-IsSolid :
    (sep : ℕ) (ws : List Text) → IsSolid sep → All (All IsSolid) ws → All IsSolid (join_at sep ws)
join_at-IsSolid sep [] h _ = tt
join_at-IsSolid sep (w ∷ []) h (hw, _) = hw
join_at-IsSolid sep (w ∷ v ∷ ws) h (hw, hs) =
    All-append IsSolid w _ hw (h, join_at-IsSolid sep (v ∷ ws) h hs)
