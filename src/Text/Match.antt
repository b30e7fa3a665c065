-- ===== src/Text/Match.antt =====
-- The global regular expressions of the source: `replace(re, f)`, `matchAll(re)` and the loop over
-- `re.exec`. A matcher reads the text at one place and gives the length of the match there, and
-- what the source takes from it. After a match the search goes on behind it.
use ai_support_agent_builder.Prelude.{
  ℕ, zero, suc, ◌-◌, List, [], ◌∷◌, ◌++◌, Bool, Option, none, some, if◌then◌else◌, ◌≡◌, refl,
}

-- How many units at the front pass the test: the greedy `[…]*`.
unfoldable pub span : (ℕ → Bool) → List ℕ → ℕ
span test [] = 0
span test (c ∷ s) = let rest = span test s in if test c then suc rest else 0

-- `s.replace(re, f)` for a global expression. The first number counts the units to pass over.
unfoldable pub replace_from : (List ℕ → Option (ℕ × List ℕ)) → ℕ → List ℕ → List ℕ
replace_from matcher skip [] = []
replace_from matcher (suc skip) (c ∷ s) = replace_from matcher skip s
replace_from matcher zero (c ∷ s) = elim (matcher (c ∷ s)) [
  | none ↦ c ∷ replace_from matcher zero s
  | some (n, text) ↦ text ++ replace_from matcher (n - 1) s
]

unfoldable pub replace_all : (List ℕ → Option (ℕ × List ℕ)) → List ℕ → List ℕ
unfolding replace_from
replace_all matcher s = replace_from matcher 0 s

-- A match: where it starts, its length, and what is taken from it.
pub record Found {ℓ} (A : Type ℓ) : Type ℓ where
  pub index : ℕ
  pub size : ℕ
  pub taken : A

module _ {ℓ} {A : Type ℓ} where
  unfoldable pub match_from : (List ℕ → Option (ℕ × A)) → ℕ → ℕ → List ℕ → List (Found A)
  match_from matcher skip pos [] = []
  match_from matcher (suc skip) pos (c ∷ s) = match_from matcher skip (suc pos) s
  match_from matcher zero pos (c ∷ s) = elim (matcher (c ∷ s)) [
    | none ↦ match_from matcher zero (suc pos) s
    | some (n, a) ↦
        record { index = pos; size = n; taken = a } ∷ match_from matcher (n - 1) (suc pos) s
  ]

  unfoldable pub match_all : (List ℕ → Option (ℕ × A)) → List ℕ → List (Found A)
  unfolding match_from
  match_all matcher s = match_from matcher 0 0 s

pub replace_from-none :
    (matcher : List ℕ → Option (ℕ × List ℕ)) (c : ℕ) (s : List ℕ)
    → matcher (c ∷ s) ≡ none
    → replace_from matcher 0 (c ∷ s) ≡ c ∷ replace_from matcher 0 s
unfolding replace_from
replace_from-none matcher c s h = rw (h, replace_from) refl

pub replace_from-some :
    (matcher : List ℕ → Option (ℕ × List ℕ)) (c : ℕ) (s : List ℕ) (n : ℕ) (r : List ℕ)
    → matcher (c ∷ s) ≡ some (n, r)
    → replace_from matcher 0 (c ∷ s) ≡ r ++ replace_from matcher (n - 1) s
unfolding replace_from
replace_from-some matcher c s n r h = rw (h, replace_from) refl

module _ {ℓ} {A : Type ℓ} where
  pub match_from-none :
      (matcher : List ℕ → Option (ℕ × A)) (pos c : ℕ) (s : List ℕ)
      → matcher (c ∷ s) ≡ none
      → match_from matcher 0 pos (c ∷ s) ≡ match_from matcher 0 (suc pos) s
  unfolding match_from
  match_from-none matcher pos c s h = rw (h, match_from) refl

  pub match_from-some :
      (matcher : List ℕ → Option (ℕ × A)) (pos c : ℕ) (s : List ℕ) (n : ℕ) (a : A)
      → matcher (c ∷ s) ≡ some (n, a)
      → match_from matcher 0 pos (c ∷ s)
        ≡ record { index = pos; size = n; taken = a } ∷ match_from matcher (n - 1) (suc pos) s
  unfolding match_from
  match_from-some matcher pos c s n a h = rw (h, match_from) refl
