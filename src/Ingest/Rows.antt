-- ===== src/Ingest/Rows.antt =====
-- The rows that a change or a removal of other rows leaves alone.
use ai_support_agent_builder.Prelude.{
  List, [], ◌∷◌, keep, Bool, true, false, not, ◌≡◌, refl, Bool-cases, inl, inr,
}
use ai_support_agent_builder.Ingest.World.{update_rows}

module _ {ℓ} {A : Type ℓ} (test other : A → Bool)
    (apart : (a : A) → other a ≡ true → test a ≡ false) where
  pub keep-keep-other :
      (rows : List A) → keep other (keep (λ a. not (test a)) rows) ≡ keep other rows
  unfolding keep
  keep-keep-other [] = refl
  keep-keep-other (a ∷ rows) = elim (Bool-cases (other a)) [
    | inl e ↦ rw (apart a e, e, keep-keep-other rows) refl
    | inr e ↦ elim (Bool-cases (test a)) [
      | inl f ↦ rw (f, e) (keep-keep-other rows)
      | inr f ↦ rw (f, e) (keep-keep-other rows)
    ]
  ]

  pub keep-update_rows-other :
      (change : A → A)
      → ((a : A) → other (change a) ≡ other a)
      → (rows : List A) → keep other (update_rows test change rows) ≡ keep other rows
  unfolding keep update_rows
  keep-update_rows-other change same [] = refl
  keep-update_rows-other change same (a ∷ rows) = elim (Bool-cases (other a)) [
    | inl e ↦ rw (apart a e, e, keep-update_rows-other change same rows) refl
    | inr e ↦ elim (Bool-cases (test a)) [
      | inl f ↦ rw (f, same a, e) (keep-update_rows-other change same rows)
      | inr f ↦ rw (f, e) (keep-update_rows-other change same rows)
    ]
  ]
