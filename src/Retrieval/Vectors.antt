-- ===== src/Retrieval/Vectors.antt =====
-- What the tests in front of the vector search say of a vector and of the embedding models.
use ai_support_agent_builder.Prelude.{
  ℕ, List, [], ◌∷◌, Option, none, some, Bool, true, false, ◌&&◌, not, ◌≡◌, ◌≢◌, inl, inr, refl, ap,
  Bool-cases, ==_iff,
}
use ai_support_agent_builder.Text.{is_empty, equals, equals_iff}
use ai_support_agent_builder.Number.{
  Double, finite, pos, negsuc, nan, minus_infinity, plus_infinity, is_finite,
}
use ai_support_agent_builder.Ingest.Pipeline.{all_finite}
use ai_support_agent_builder.Retrieval.{is_zero, some_nonzero, mismatches}

-- The number is neither NaN nor infinite.
abbrev pub IsFinite : Double → Type 0
IsFinite x = (x ≢ nan) × (x ≢ minus_infinity) × (x ≢ plus_infinity)

abbrev pub AreFinite : List Double → Type 0
AreFinite [] = Unit
AreFinite (v ∷ vs) = IsFinite v × AreFinite vs

abbrev pub AreZero : List Double → Type 0
AreZero [] = Unit
AreZero (v ∷ vs) = (v ≡ finite (pos 0)) × AreZero vs

-- The assistant is there with an embedding model that is set and another.
abbrev pub HasOther : Option (List ℕ) → List ℕ → Type 0
HasOther none model = ⊥
HasOther (some m) model = (m ≢ []) × (m ≢ model)

pub is_finite-IsFinite : (x : Double) → is_finite x ≡ true → IsFinite x
unfolding is_finite
is_finite-IsFinite (finite x) h = (λ e. cc, λ e. cc, λ e. cc)
is_finite-IsFinite nan h = cc
is_finite-IsFinite minus_infinity h = cc
is_finite-IsFinite plus_infinity h = cc

pub IsFinite-is_finite : (x : Double) → IsFinite x → is_finite x ≡ true
unfolding is_finite
IsFinite-is_finite (finite x) h = refl
IsFinite-is_finite nan (a, b, c) = absurd (a refl)
IsFinite-is_finite minus_infinity (a, b, c) = absurd (b refl)
IsFinite-is_finite plus_infinity (a, b, c) = absurd (c refl)

&&-both : (a b : Bool) → (a && b) ≡ true → (a ≡ true) × (b ≡ true)
&&-both true b h = (refl, h)
&&-both false b h = cc

pub all_finite-AreFinite : (vs : List Double) → all_finite vs ≡ true → AreFinite vs
unfolding all_finite
all_finite-AreFinite [] h = tt
all_finite-AreFinite (v ∷ vs) h =
    let (a, b) = &&-both (is_finite v) (all_finite vs) h in
    (is_finite-IsFinite v a, all_finite-AreFinite vs b)

pub AreFinite-all_finite : (vs : List Double) → AreFinite vs → all_finite vs ≡ true
unfolding all_finite
AreFinite-all_finite [] h = refl
AreFinite-all_finite (v ∷ vs) (a, b) = rw (IsFinite-is_finite v a, AreFinite-all_finite vs b) refl

is_zero-zero : (v : Double) → is_zero v ≡ true → v ≡ finite (pos 0)
is_zero-zero (finite (pos n)) h = ap (λ m. finite (pos m)) ((==_iff n 0).0 h)
is_zero-zero (finite (negsuc n)) h = cc
is_zero-zero nan h = cc
is_zero-zero minus_infinity h = cc
is_zero-zero plus_infinity h = cc

pub some_nonzero-false : (vs : List Double) → some_nonzero vs ≡ false → AreZero vs
unfolding some_nonzero
some_nonzero-false [] h = tt
some_nonzero-false (v ∷ vs) h = elim (Bool-cases (is_zero v)) [
  | inl e ↦ (is_zero-zero v e, some_nonzero-false vs (let k = rw e at h in k))
  | inr e ↦ let k = rw e at h in absurd (cc)
]

pub AreZero-some_nonzero : (vs : List Double) → AreZero vs → some_nonzero vs ≡ false
unfolding some_nonzero
AreZero-some_nonzero [] h = refl
AreZero-some_nonzero (v ∷ vs) (e, h) = rw (e, AreZero-some_nonzero vs h) refl

pub is_empty-nil : (s : List ℕ) → is_empty s ≡ true → s ≡ []
is_empty-nil [] h = refl
is_empty-nil (c ∷ s) h = cc

pub is_empty-other : (s : List ℕ) → is_empty s ≡ false → s ≢ []
is_empty-other [] h e = cc
is_empty-other (c ∷ s) h e = cc

pub mismatches-HasOther :
    (o : Option (List ℕ)) (model : List ℕ) → mismatches o model ≡ true → HasOther o model
unfolding mismatches
mismatches-HasOther none model h = cc
mismatches-HasOther (some m) model h =
    let (a, b) = &&-both (not (is_empty m)) (not (equals m model)) h in
    (
      (λ e. let f = ap (λ s. not (is_empty s)) e in cc),
      (λ e. let f = (equals_iff m model).1 e in cc),
    )

pub HasOther-mismatches :
    (o : Option (List ℕ)) (model : List ℕ) → HasOther o model → mismatches o model ≡ true
unfolding mismatches
HasOther-mismatches none model h = absurd h
HasOther-mismatches (some m) model (set, other) = elim (Bool-cases (is_empty m)) [
  | inl e ↦ absurd (set (is_empty-nil m e))
  | inr e ↦ elim (Bool-cases (equals m model)) [
    | inl f ↦ absurd (other ((equals_iff m model).0 f))
    | inr f ↦ rw (e, f) refl
  ]
]
