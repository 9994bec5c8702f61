-- ===== src/Prelude/Utf8.antt =====
-- `s.encode("utf-8")`; `none` is a UnicodeEncodeError, which a half of a surrogate pair raises.
use Prim.Native.Nat.{ℕ, ◌+◌, ◌/◌, ◌%◌, ◌<◌}
use mathlib.Core.Bool.{◌&&◌}
use mathlib.Core.List.{[], ◌∷◌, ◌++◌}
use mathlib.Core.Option.{Option, none, some}
use mathlib.Core.Path.{◌≡◌, refl}
use native.Mathlib.Omega.{arith}
use pmu_roboflex.Prelude.Tests.{ltb, leb, if◌then◌else◌, ◌>>=◌}
use pmu_roboflex.Prelude.Texts.{Text}
use pmu_roboflex.Prelude.Lists.{All}

utf8_char : ℕ → Option Text
utf8_char c =
    if ltb c 0x80
    then some (c ∷ [])
    else if ltb c 0x800
    then some ((0xc0 + c / 64) ∷ (0x80 + c % 64) ∷ [])
    else if leb 0xd800 c && ltb c 0xe000
    then none
    else if ltb c 0x10000
    then some ((0xe0 + c / 4096) ∷ (0x80 + c / 64 % 64) ∷ (0x80 + c % 64) ∷ [])
    else some
        ((0xf0 + c / 262144) ∷ (0x80 + c / 4096 % 64) ∷ (0x80 + c / 64 % 64) ∷ (0x80 + c % 64) ∷ [])

unfoldable pub encode_utf8 : Text → Option Text
unfolding utf8_char
encode_utf8 [] = some []
encode_utf8 (c ∷ s) = do b ← utf8_char c; bs ← encode_utf8 s; some (b ++ bs)

-- ASCII text is its own encoding.
pub encode_utf8-ascii : (s : Text) → All (λ c. c < 0x80) s → encode_utf8 s ≡ some s
unfolding encode_utf8
encode_utf8-ascii [] h = refl
encode_utf8-ascii (c ∷ s) (hc, hs) = ground (arith, encode_utf8-ascii s hs)

encode_utf8_test : encode_utf8 (0x20ac ∷ 0x41 ∷ []) ≡ some (0xe2 ∷ 0x82 ∷ 0xac ∷ 0x41 ∷ [])
unfolding encode_utf8
encode_utf8_test = refl
