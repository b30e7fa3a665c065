-- ===== src/Chat/Sources/Fence.antt =====
-- Tenant text cannot leave its place in the prompt: not the fence, not the header line.
use ai_support_agent_builder.Prelude.{
  ℕ, zero, suc, ◌-◌, List, [], ◌∷◌, ◌++◌, ◌≡◌, ◌≢◌, refl, sym, ap, subst, ◌∙◌, Bool, true, false,
  ◌&&◌, none, some, arith, if◌then◌else◌, if_elim, Bool-cases, Option-cases, inl, inr, ◌⊎◌,
}
use ai_support_agent_builder.Text.{
  codes, starts_with_ci, same_letter, replace_from, replace_all, replace_from-none,
  replace_from-some,
}
use ai_support_agent_builder.Chat.Sources.Header.{source_tag, neutralized}

-- No `<source>` or `</source>`, in either case, begins anywhere in the text.
abbrev pub NoTag : List ℕ → Type 0
NoTag [] = Unit
NoTag (c ∷ s) = (source_tag (c ∷ s) ≡ none) × NoTag s

-- A part of the expression without `[`.
abbrev NoBracket : List ℕ → Type 0
NoBracket [] = Unit
NoBracket (p ∷ ps) = (p ≢ b'[') × NoBracket ps

replacement_head :
    (s : List ℕ) (n : ℕ) (r : List ℕ)
    → source_tag s ≡ some (n, r)
    → (r ≡ codes "[source]") ⊎ (r ≡ codes "[/source]")
unfolding source_tag
replacement_head s n r =
    if_elim (λ o. o ≡ some (n, r) → (r ≡ codes "[source]") ⊎ (r ≡ codes "[/source]"))
      (starts_with_ci s (codes "<source>")) (some (8, codes "[source]"))
      (if starts_with_ci s (codes "</source>") then some (9, codes "[/source]") else none)
      (λ e h. inl (cc))
      (λ e.
        if_elim (λ o. o ≡ some (n, r) → (r ≡ codes "[source]") ⊎ (r ≡ codes "[/source]"))
          (starts_with_ci s (codes "</source>")) (some (9, codes "[/source]")) none
          (λ e2 h. inr (cc)) (λ e2 h. cc))

-- No unit but `[` matches `[`.
starts_bracket :
    (t : List ℕ) (p : ℕ) (ps : List ℕ) → p ≢ b'[' → starts_with_ci (b'[' ∷ t) (p ∷ ps) ≡ false
unfolding starts_with_ci same_letter
starts_bracket t p ps q = ground arith

absurd_of {ℓ} : {A : Type ℓ} {b : Bool} → b ≡ false → b ≡ true → A
absurd_of f t = cc

&&-right : (x y z : Bool) → (y ≡ true → z ≡ true) → (x && y) ≡ true → (x && z) ≡ true
&&-right true y z f e = f e
&&-right false y z f e = e

-- What the output shows without `[`, the input shows too.
shown_copied :
    (s p : List ℕ)
    → NoBracket p
    → starts_with_ci (replace_from source_tag 0 s) p ≡ true
    → starts_with_ci s p ≡ true
unfolding starts_with_ci replace_from
shown_copied s [] b h = refl
shown_copied [] (p ∷ ps) b h = h
shown_copied (c ∷ s) (p ∷ ps) (q, b) h = elim (Option-cases (source_tag (c ∷ s))) [
  | inl kept ↦
      &&-right (same_letter c p) (starts_with_ci (replace_from source_tag 0 s) ps)
        (starts_with_ci s ps) (shown_copied s ps b)
        (ap (λ t. starts_with_ci t (p ∷ ps)) (sym (replace_from-none source_tag c s kept)) ∙ h)
  | inr ((n, r), found) ↦ elim (replacement_head (c ∷ s) n r found) [
    | inl a ↦
        (absurd_of (starts_bracket _ p ps q) (
          sym (
            ap (λ t. starts_with_ci t (p ∷ ps))
              (replace_from-some source_tag c s n r found
                ∙ ap (λ u. u ++ replace_from source_tag (n - 1) s) a))
          ∙ h))
    | inr a ↦
        (absurd_of (starts_bracket _ p ps q) (
          sym (
            ap (λ t. starts_with_ci t (p ∷ ps))
              (replace_from-some source_tag c s n r found
                ∙ ap (λ u. u ++ replace_from source_tag (n - 1) s) a))
          ∙ h))
  ]
]

some≢none {ℓ κ} : {A : Type ℓ} {B : Type κ} {a : A} → some a ≡ none → B
some≢none e = cc

source_tag-none :
    (s : List ℕ)
    → starts_with_ci s (codes "<source>") ≡ false
    → starts_with_ci s (codes "</source>") ≡ false
    → source_tag s ≡ none
unfolding source_tag
source_tag-none s a b = rw (a, b) refl

source_tag-none_iff :
    (s : List ℕ)
    → source_tag s ≡ none
    → (starts_with_ci s (codes "<source>") ≡ false) × (starts_with_ci s (codes "</source>") ≡ false)
unfolding source_tag
source_tag-none_iff s h = elim (Bool-cases (starts_with_ci s (codes "<source>"))) [
  | inl a ↦ let e = rw a at h in some≢none e
  | inr a ↦ elim (Bool-cases (starts_with_ci s (codes "</source>"))) [
    | inl b ↦ let e = rw (a, b) at h in some≢none e
    | inr b ↦ (a, b)
  ]
]

-- A tag that the text of the output shows at `c` would stand in the input.
not_shown :
    (c : ℕ) (s : List ℕ) (p : List ℕ)
    → NoBracket p
    → (q : ℕ) → starts_with_ci (c ∷ s) (q ∷ p) ≡ false
    → starts_with_ci (c ∷ replace_from source_tag 0 s) (q ∷ p) ≡ false
unfolding starts_with_ci
not_shown c s p b q h =
    elim (Bool-cases (same_letter c q && starts_with_ci (replace_from source_tag 0 s) p)) [
      | inl shown ↦ absurd_of h (&&-right (same_letter c q) _ _ (shown_copied s p b) shown)
      | inr hidden ↦ hidden
    ]

kept_none :
    (c : ℕ) (s : List ℕ)
    → source_tag (c ∷ s) ≡ none
    → source_tag (c ∷ replace_from source_tag 0 s) ≡ none
kept_none c s h =
    let (a, b) = source_tag-none_iff (c ∷ s) h in
    source_tag-none (c ∷ replace_from source_tag 0 s)
      (not_shown c s (codes "source>") ((λ e. ground arith), ground arith) b'<' a)
      (not_shown c s (codes "/source>") ((λ e. ground arith), ground arith) b'<' b)

replace_from-NoTag : (skip : ℕ) (s : List ℕ) → NoTag (replace_from source_tag skip s)
unfolding replace_from source_tag starts_with_ci same_letter
replace_from-NoTag skip [] = tt
replace_from-NoTag (suc skip) (c ∷ s) = replace_from-NoTag skip s
replace_from-NoTag zero (c ∷ s) = elim (Option-cases (source_tag (c ∷ s))) [
  | inl kept ↦
      subst NoTag (sym (replace_from-none source_tag c s kept))
        (kept_none c s kept, replace_from-NoTag 0 s)
  | inr ((n, r), found) ↦ elim (replacement_head (c ∷ s) n r found) [
    | inl a ↦
        subst NoTag
          (sym (
            replace_from-some source_tag c s n r found
            ∙ ap (λ u. u ++ replace_from source_tag (n - 1) s) a))
          (
            refl,
            (refl, (refl, (refl, (refl, (refl, (refl, (refl, replace_from-NoTag (n - 1) s))))))),
          )
    | inr a ↦
        subst NoTag
          (sym (
            replace_from-some source_tag c s n r found
            ∙ ap (λ u. u ++ replace_from source_tag (n - 1) s) a))
          (
            refl,
            (
              refl,
              (refl, (refl, (refl, (refl, (refl, (refl, (refl, replace_from-NoTag (n - 1) s))))))),
            ),
          )
  ]
]

-- Whatever a tenant's document contains, its fenced copy shows neither `<source>` nor `</source>`
-- at any place, in either case: the fence around it closes where `entry_text` closes it.
pub neutralized-NoTag : (content : List ℕ) → NoTag (neutralized content)
unfolding neutralized replace_all
neutralized-NoTag content = replace_from-NoTag 0 content
