-- ===== src/Text/Blank.antt =====
-- A text is blank if all its units are white space; trimming does not change that.
use mathlib.Core.List.{reverse, reverse-cons}
use ai_support_agent_builder.Prelude.{
  ℕ, List, [], ◌∷◌, ◌++◌, Bool, true, false, ◌&&◌, ◌≡◌, refl, sym, ◌∙◌, arith, Bool-cases, inl, inr,
}
use ai_support_agent_builder.Text.{is_space, trim_start, trim_end, trim, is_empty, is_blank_text}

all_space : List ℕ → Bool
all_space [] = true
all_space (c ∷ s) = is_space c && all_space s

all_space-append : (s t : List ℕ) → all_space (s ++ t) ≡ (all_space s && all_space t)
unfolding all_space
all_space-append [] t = refl
all_space-append (c ∷ s) t = ground (arith, all_space-append s t)

all_space-reverse : (s : List ℕ) → all_space (reverse s) ≡ all_space s
unfolding all_space
all_space-reverse [] = refl
all_space-reverse (c ∷ s) =
    rw reverse-cons (all_space-append (reverse s) (c ∷ []) ∙ ground (arith, all_space-reverse s))

is_empty-trim_start : (s : List ℕ) → is_empty (trim_start s) ≡ all_space s
unfolding trim_start all_space
is_empty-trim_start [] = refl
is_empty-trim_start (c ∷ s) = elim (Bool-cases (is_space c)) [
  | inl e ↦ rw e (is_empty-trim_start s)
  | inr e ↦ rw e
]

all_space-trim_start : (s : List ℕ) → all_space (trim_start s) ≡ all_space s
unfolding trim_start all_space
all_space-trim_start [] = refl
all_space-trim_start (c ∷ s) = elim (Bool-cases (is_space c)) [
  | inl e ↦ rw e (all_space-trim_start s)
  | inr e ↦ rw e (rw e)
]

all_space-trim_end : (s : List ℕ) → all_space (trim_end s) ≡ all_space s
unfolding trim_end
all_space-trim_end s =
    all_space-reverse (trim_start (reverse s))
    ∙ all_space-trim_start (reverse s)
    ∙ all_space-reverse s

is_empty-reverse : (s : List ℕ) → is_empty (reverse s) ≡ is_empty s
is_empty-reverse [] = refl
is_empty-reverse (c ∷ s) = rw reverse-cons (grows (reverse s))
  where
    grows : (t : List ℕ) → is_empty (t ++ c ∷ []) ≡ false
    grows [] = refl
    grows (d ∷ t) = refl

is_blank_text-all_space : (s : List ℕ) → is_blank_text s ≡ all_space s
unfolding is_blank_text trim
is_blank_text-all_space s =
    unfold trim_end in
    is_empty-reverse (trim_start (reverse (trim_start s)))
    ∙ is_empty-trim_start (reverse (trim_start s))
    ∙ all_space-reverse (trim_start s)
    ∙ all_space-trim_start s

all_space-trim : (s : List ℕ) → all_space (trim s) ≡ all_space s
unfolding trim
all_space-trim s = all_space-trim_end (trim_start s) ∙ all_space-trim_start s

-- A text that is trimmed is blank exactly if the text was.
pub is_blank_text-trim : (s : List ℕ) → is_blank_text (trim s) ≡ is_empty (trim s)
is_blank_text-trim s =
    is_blank_text-all_space (trim s)
    ∙ all_space-trim s
    ∙ sym (is_blank_text-all_space s)
    ∙ (unfold is_blank_text in refl)
