-- ===== src/Text/Space.antt =====
-- White space: `\s`, `trim`, `trimStart` and `trimEnd` share one set of code units.
use mathlib.Core.List.{reverse}
use ai_support_agent_builder.Prelude.{
  ℕ, List, [], ◌∷◌, Bool, true, false, ◌&&◌, ◌||◌, leb, ◌==◌, if◌then◌else◌,
}

-- WhiteSpace and LineTerminator of ECMAScript.
unfoldable pub is_space : ℕ → Bool
is_space c =
    (leb 9 c && leb c 13)
    || c == 32
    || c == 160
    || c == 0x1680
    || (leb 0x2000 c && leb c 0x200a)
    || c == 0x2028
    || c == 0x2029
    || c == 0x202f
    || c == 0x205f
    || c == 0x3000
    || c == 0xfeff

unfoldable pub trim_start : List ℕ → List ℕ
unfolding is_space
trim_start [] = []
trim_start (c ∷ s) = let rest = trim_start s in if is_space c then rest else c ∷ s

unfoldable pub trim_end : List ℕ → List ℕ
unfolding trim_start
trim_end s = reverse (trim_start (reverse s))

-- `s.trim()`
unfoldable pub trim : List ℕ → List ℕ
unfolding trim_end
trim s = trim_end (trim_start s)

-- `s === ''`, the falsy text.
abbrev pub is_empty : List ℕ → Bool
is_empty [] = true
is_empty (c ∷ s) = false

-- `s.trim() === ''`
unfoldable pub is_blank_text : List ℕ → Bool
unfolding trim
is_blank_text s = is_empty (trim s)
