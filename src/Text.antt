-- ===== src/Text.antt =====
-- The strings of the source. A JavaScript string is a sequence of UTF-16 code units, and its
-- offsets (`length`, `slice`, `indexOf`) count these units, so a text is a list of numbers.
-- Regular expressions are functions on that list.
mod Space
mod Compare
mod Match
mod Decimal
pub mod Occurs
pub mod Blank
unfoldable pub use Space.*
unfoldable pub use Compare.*
unfoldable pub use Match.*
unfoldable pub use Decimal.*
use Prim.Native.Char.{code}
use ai_support_agent_builder.Prelude.{
  ℕ, zero, suc, String, List, [], ◌∷◌, ◌++◌, Bool, true, false, ◌&&◌, ◌||◌, leb, ◌==◌,
  if◌then◌else◌,
}

-- The code units of a literal: its code points, which are all below 2 ^ 16.
abbrev pub codes : String → List ℕ
codes String.[] = []
codes (String.◌∷◌ c s) = code c ∷ codes s

-- `parts.join(sep)`
unfoldable pub join : List ℕ → List (List ℕ) → List ℕ
join sep [] = []
join sep (p ∷ []) = p
join sep (p ∷ (q ∷ ps)) = p ++ (sep ++ join sep (q ∷ ps))

-- `replace(/[ \t]+/g, ' ')` and `replace(/\s+/g, ' ')`: a run of units that pass the test becomes
-- one space. `open` tells that the run at hand has been written.
unfoldable pub squeeze : (ℕ → Bool) → Bool → List ℕ → List ℕ
squeeze test open_run [] = []
squeeze test open_run (c ∷ s) =
    let rest = squeeze test (test c) s in
    if test c then (if open_run then rest else b' ' ∷ rest) else c ∷ rest

unfoldable pub collapse : (ℕ → Bool) → List ℕ → List ℕ
unfolding squeeze
collapse test s = squeeze test false s

-- `[ \t]`
unfoldable pub is_blank : ℕ → Bool
is_blank c = c == 32 || c == 9

-- `replace(/\r\n?/g, '\n')`
unfoldable pub normalize_newlines : List ℕ → List ℕ
normalize_newlines [] = []
normalize_newlines (c ∷ []) = (if c == 13 then 10 else c) ∷ []
normalize_newlines (c ∷ (d ∷ s)) =
    let joined = normalize_newlines s in
    let single = normalize_newlines (d ∷ s) in
    if c == 13 then (if d == 10 then 10 ∷ joined else 10 ∷ single) else c ∷ single
