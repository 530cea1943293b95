-- ===== src/Prelude/Texts.antt =====
-- Python's `str.strip` on texts.
use Prim.Native.Char.{code}
use Prim.Native.String.{String, [], ◌∷◌}
use Prim.Native.Nat.{ℕ}
use mathlib.Core.Bool.{Bool, true, false, ◌&&◌, ◌||◌}
use screen2xyz_civil_plan_di.Prelude.Tests.{leb, ◌==◌, if◌then◌else◌}

-- `str.isspace` of one character, by its code point
unfoldable pub is_space : ℕ → Bool
is_space c =
    (leb 9 c && leb c 13)
    || ((leb 28 c && leb c 32)
        || (c == 133
            || (c == 160
                || (c == 5760
                    || ((leb 8192 c && leb c 8202)
                        || (c == 8232
                            || (c == 8233 || (c == 8239 || (c == 8287 || c == 12288)))))))))

unfoldable pub strip_left : String → String
unfolding is_space
strip_left [] = []
strip_left (c ∷ rest) = if is_space (code c) then strip_left rest else c ∷ rest

abbrev is_blank : String → Bool
is_blank [] = true
is_blank (_ ∷ _) = false

unfoldable pub strip_right : String → String
unfolding is_space
strip_right [] = []
strip_right (c ∷ rest) =
    let kept = strip_right rest in if is_blank kept && is_space (code c) then [] else c ∷ kept

unfoldable pub strip : String → String
unfolding strip_left strip_right
strip s = strip_right (strip_left s)
