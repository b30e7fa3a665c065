-- ===== src/Text/Compare.antt =====
-- Comparison of texts, their prefixes, and the lower case.
use ai_support_agent_builder.Prelude.{
  ℕ, ◌+◌, List, [], ◌∷◌, ◌++◌, Bool, true, false, ◌&&◌, ◌||◌, leb, ◌==◌, if◌then◌else◌, ◌≡◌, arith,
  ◌↔◌,
}

-- `s === t`
unfoldable pub equals : List ℕ → List ℕ → Bool
equals [] [] = true
equals [] (d ∷ t) = false
equals (c ∷ s) [] = false
equals (c ∷ s) (d ∷ t) = c == d && equals s t

pub equals_iff : (s t : List ℕ) → (equals s t ≡ true) ↔ (s ≡ t)
unfolding equals
equals_iff [] [] = ground arith
equals_iff [] (d ∷ t) = ground arith
equals_iff (c ∷ s) [] = ground arith
equals_iff (c ∷ s) (d ∷ t) = ground (arith, equals_iff s t)

-- `s.startsWith(prefix)`
unfoldable pub starts_with : List ℕ → List ℕ → Bool
starts_with s [] = true
starts_with [] (p ∷ ps) = false
starts_with (c ∷ s) (p ∷ ps) = c == p && starts_with s ps

-- `s.includes(part)`
unfoldable pub includes : List ℕ → List ℕ → Bool
unfolding starts_with
includes [] part = starts_with [] part
includes (c ∷ s) part = starts_with (c ∷ s) part || includes s part

-- One unit under the flag `i`, against an ASCII unit of the expression in lower case.
unfoldable pub same_letter : ℕ → ℕ → Bool
same_letter c p = (if leb b'A' c && leb c b'Z' then c + 32 else c) == p

-- An ASCII expression in lower case, under the flag `i`, at the front of the text.
unfoldable pub starts_with_ci : List ℕ → List ℕ → Bool
unfolding same_letter
starts_with_ci s [] = true
starts_with_ci [] (p ∷ ps) = false
starts_with_ci (c ∷ s) (p ∷ ps) = same_letter c p && starts_with_ci s ps

-- `s.toLowerCase()`, as far as an ASCII text can tell. Outside ASCII two units have a lower case
-- with an ASCII unit in it: U+212A (k) and U+0130 (i and a combining dot). All others are left
-- alone here: their lower case has no ASCII unit, and every caller compares with ASCII.
unfoldable pub lower_unit : ℕ → List ℕ
lower_unit c =
    if leb b'A' c && leb c b'Z'
    then (c + 32) ∷ []
    else if c == 0x212a
    then b'k' ∷ []
    else if c == 0x130
    then b'i' ∷ 0x307 ∷ []
    else c ∷ []

unfoldable pub to_lower_case : List ℕ → List ℕ
unfolding lower_unit
to_lower_case [] = []
to_lower_case (c ∷ s) = lower_unit c ++ to_lower_case s
