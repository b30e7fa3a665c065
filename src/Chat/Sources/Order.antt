-- ===== src/Chat/Sources/Order.antt =====
-- The order of the hits in api/src/chat/prompt-assembly.ts: the comparator and the sort.
use mathlib.Core.List.{Perm}
use mathlib.Core.List.Perm
use ai_support_agent_builder.Prelude.{
  ℕ, List, [], ◌∷◌, Bool, true, false, ◌≡◌, refl, Option, none, some, if◌then◌else◌, if_elim,
}
use ai_support_agent_builder.Number.{
  Sign, negative, zero_or_nan, positive, sub_sign, sub_sign_ℕ, or_else, flip, sub_sign-flip,
  or_else-flip, sub_sign_ℕ-flip,
}
use ai_support_agent_builder.Chat.Sources.Header.{ChunkHit}

-- `a.charStart ?? 0`
abbrev pub start_or_zero : Option ℕ → ℕ
start_or_zero none = 0
start_or_zero (some n) = n

abbrev pub is_positive : Sign → Bool
is_positive negative = false
is_positive zero_or_nan = false
is_positive positive = true

-- `localeCompare` is the engine's.
module _ (locale_compare : List ℕ → List ℕ → Sign) where
  unfoldable pub compare_hits : ChunkHit → ChunkHit → Sign
  unfolding sub_sign sub_sign_ℕ
  compare_hits a b = or_else (sub_sign b.score a.score) (
      or_else (locale_compare a.document_id b.document_id) (
        or_else (sub_sign_ℕ (start_or_zero a.char_start) (start_or_zero b.char_start))
          (locale_compare a.id b.id)))

  unfoldable pub insert_hit : ChunkHit → List ChunkHit → List ChunkHit
  unfolding compare_hits
  insert_hit hit [] = hit ∷ []
  insert_hit hit (x ∷ xs) =
      let rest = insert_hit hit xs in
      if is_positive (compare_hits hit x) then x ∷ rest else hit ∷ (x ∷ xs)

  -- `sort` is stable, and so is insertion, which keeps a hit before its equals. A score that is not a
  -- number makes the comparator inconsistent, and the order is then left to the engine.
  unfoldable pub sort_hits : List ChunkHit → List ChunkHit
  unfolding insert_hit
  sort_hits [] = []
  sort_hits (hit ∷ hits) = insert_hit hit (sort_hits hits)

  -- No hit is strictly behind its successor.
  abbrev pub Ordered : List ChunkHit → Type 0
  Ordered [] = Unit
  Ordered (x ∷ []) = Unit
  Ordered (x ∷ (y ∷ ys)) = (is_positive (compare_hits x y) ≡ false) × Ordered (y ∷ ys)

  -- What `localeCompare` is documented to do: swapped arguments give the opposite sign.
  module _
      (locale_compare-flip : (s t : List ℕ) → locale_compare t s ≡ flip (locale_compare s t)) where
    compare_hits-flip : (a b : ChunkHit) → compare_hits b a ≡ flip (compare_hits a b)
    unfolding compare_hits
    compare_hits-flip a b = or_else-flip _ _ _ _ (sub_sign-flip b.score a.score) (
        or_else-flip _ _ _ _ (locale_compare-flip a.document_id b.document_id) (
          or_else-flip _ _ _ _
            (sub_sign_ℕ-flip (start_or_zero a.char_start) (start_or_zero b.char_start))
            (locale_compare-flip a.id b.id)))

    flip_positive : (s t : Sign) → t ≡ flip s → is_positive s ≡ true → is_positive t ≡ false
    flip_positive negative t e h = cc
    flip_positive zero_or_nan t e h = cc
    flip_positive positive t e h = rw e refl

    below :
        (hit x y : ChunkHit) (ys : List ChunkHit)
        → is_positive (compare_hits x y) ≡ false
        → is_positive (compare_hits hit x) ≡ true
        → Ordered (insert_hit hit (y ∷ ys))
        → Ordered (x ∷ insert_hit hit (y ∷ ys))
    unfolding insert_hit
    below hit x y ys xy e =
        if_elim (λ l. Ordered l → Ordered (x ∷ l)) (is_positive (compare_hits hit y)) _ _
          (λ f o. (xy, o))
          (λ f o. (
            flip_positive (compare_hits hit x) (compare_hits x hit) (compare_hits-flip hit x) e,
            o,
          ))

    insert_hit-Ordered :
        (hit : ChunkHit) (xs : List ChunkHit) → Ordered xs → Ordered (insert_hit hit xs)
    unfolding insert_hit
    insert_hit-Ordered hit [] o = tt
    insert_hit-Ordered hit (x ∷ []) o =
        if_elim Ordered (is_positive (compare_hits hit x)) _ _
          (λ e. (
            flip_positive (compare_hits hit x) (compare_hits x hit) (compare_hits-flip hit x) e,
            tt,
          ))
          (λ e. (e, tt))
    insert_hit-Ordered hit (x ∷ (y ∷ ys)) (xy, o) =
        if_elim Ordered (is_positive (compare_hits hit x)) _ _
          (λ e. below hit x y ys xy e (insert_hit-Ordered hit (y ∷ ys) o)) (λ e. (e, (xy, o)))

    -- The sorted hits are in order: none is strictly behind its successor.
    pub sort_hits-Ordered : (hits : List ChunkHit) → Ordered (sort_hits hits)
    unfolding sort_hits
    sort_hits-Ordered [] = tt
    sort_hits-Ordered (hit ∷ hits) =
        insert_hit-Ordered hit (sort_hits hits) (sort_hits-Ordered hits)

  insert_hit-Perm : (hit : ChunkHit) (xs : List ChunkHit) → Perm (insert_hit hit xs) (hit ∷ xs)
  unfolding insert_hit
  insert_hit-Perm hit [] = Perm.refl (hit ∷ [])
  insert_hit-Perm hit (x ∷ xs) =
      if_elim (λ l. Perm l (hit ∷ (x ∷ xs))) (is_positive (compare_hits hit x)) _ _
        (λ e. Perm.trans (Perm.cons x (insert_hit-Perm hit xs)) (Perm.swap hit x xs))
        (λ e. Perm.refl (hit ∷ (x ∷ xs)))

  -- Sorting neither loses nor invents a hit.
  pub sort_hits-Perm : (hits : List ChunkHit) → Perm (sort_hits hits) hits
  unfolding sort_hits
  sort_hits-Perm [] = Perm.nil
  sort_hits-Perm (hit ∷ hits) =
      Perm.trans (insert_hit-Perm hit (sort_hits hits)) (Perm.cons hit (sort_hits-Perm hits))
