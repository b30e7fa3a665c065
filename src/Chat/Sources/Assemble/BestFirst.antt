-- ===== src/Chat/Sources/Assemble/BestFirst.antt =====
-- What the order of the hits in `assembleContext` says of neighbours.
use ai_support_agent_builder.Prelude.{
  ℕ, ◌<◌, List, [], ◌∷◌, Bool, true, false, ◌≡◌, ◌≢◌, ◌⊎◌, inl, inr, refl, arith, ltb→le, ltb→lt,
}
use ai_support_agent_builder.Number.{
  Sign, negative, zero_or_nan, positive, lt_double, sub_sign, sub_sign_ℕ, sign_of, or_else,
}
use ai_support_agent_builder.Chat.Sources.Header.{ChunkHit}
use ai_support_agent_builder.Chat.Sources.Order.{Ordered, compare_hits, is_positive, start_or_zero}

-- The first hit comes before the second: it has the better score, or none is better and its document
-- comes first, or that is tied too and it starts earlier, or its id is not behind.
abbrev pub Ahead : (List ℕ → List ℕ → Sign) → ChunkHit → ChunkHit → Type 0
Ahead locale_compare x y =
    (lt_double y.score x.score ≡ true)
    ⊎ ((lt_double x.score y.score ≡ false)
        × ((locale_compare x.document_id y.document_id ≡ negative)
            ⊎ ((locale_compare x.document_id y.document_id ≡ zero_or_nan)
                × ((start_or_zero x.char_start < start_or_zero y.char_start)
                    ⊎ ((start_or_zero x.char_start ≡ start_or_zero y.char_start)
                        × (locale_compare x.id y.id ≢ positive))))))

-- Each hit comes before the next.
abbrev pub BestFirst : (List ℕ → List ℕ → Sign) → List ChunkHit → Type 0
BestFirst locale_compare [] = Unit
BestFirst locale_compare (x ∷ []) = Unit
BestFirst locale_compare (x ∷ (y ∷ ys)) =
    Ahead locale_compare x y × BestFirst locale_compare (y ∷ ys)

or_else-cases :
    (s t : Sign)
    → is_positive (or_else s t) ≡ false
    → (s ≡ negative) ⊎ ((s ≡ zero_or_nan) × (is_positive t ≡ false))
or_else-cases negative t h = inl refl
or_else-cases zero_or_nan t h = inr (refl, h)
or_else-cases positive t h = cc

sign_of-negative : (a b : Bool) → sign_of a b ≡ negative → a ≡ true
sign_of-negative true b h = refl
sign_of-negative false true h = cc
sign_of-negative false false h = cc

sign_of-zero : (a b : Bool) → sign_of a b ≡ zero_or_nan → (a ≡ false) × (b ≡ false)
sign_of-zero true b h = cc
sign_of-zero false true h = cc
sign_of-zero false false h = (refl, refl)

not_positive : (s : Sign) → is_positive s ≡ false → s ≢ positive
not_positive negative h e = cc
not_positive zero_or_nan h e = cc
not_positive positive h e = cc

module _ (locale_compare : List ℕ → List ℕ → Sign) where
  compare_hits-Ahead :
      (x y : ChunkHit)
      → is_positive (compare_hits locale_compare x y) ≡ false
      → Ahead locale_compare x y
  unfolding compare_hits sub_sign sub_sign_ℕ
  compare_hits-Ahead x y h = elim (or_else-cases (sub_sign y.score x.score) _ h) [
    | inl e ↦ inl (sign_of-negative _ _ e)
    | inr (e, h') ↦ inr (
      (sign_of-zero _ _ e).1,
      elim (or_else-cases (locale_compare x.document_id y.document_id) _ h') [
        | inl f ↦ inl f
        | inr (f, h'') ↦ inr (
          f,
          elim (or_else-cases (sub_sign_ℕ (start_or_zero x.char_start) (start_or_zero y.char_start))
              _ h'') [
                | inl g ↦ inl (ltb→lt _ _ (sign_of-negative _ _ g))
                | inr (g, h3) ↦ inr (
                  (let z = sign_of-zero _ _ g in omega (arith, ltb→le _ _ z.0, ltb→le _ _ z.1)),
                  not_positive _ h3,
                )
              ],
        )
      ],
    )
  ]

  pub Ordered-BestFirst :
      (hits : List ChunkHit) → Ordered locale_compare hits → BestFirst locale_compare hits
  Ordered-BestFirst [] o = tt
  Ordered-BestFirst (x ∷ []) o = tt
  Ordered-BestFirst (x ∷ (y ∷ ys)) (h, o) = (compare_hits-Ahead x y h, Ordered-BestFirst (y ∷ ys) o)
