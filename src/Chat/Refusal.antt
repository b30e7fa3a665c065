-- ===== src/Chat/Refusal.antt =====
-- api/src/chat/refusal.ts: the gate before the model is called.
use ai_support_agent_builder.Prelude.{
  ℕ, List, [], ◌∷◌, Bool, true, false, not, ◌||◌, ◌≡◌, refl, ◌↔◌, inl, inr, Option, none, some,
  if◌then◌else◌, Bool-cases,
}
use ai_support_agent_builder.Text.{codes}
use ai_support_agent_builder.Number.{Double, is_finite, lt_double}

abbrev pub refusal_message : List ℕ
refusal_message = codes "I don't have enough information in the provided sources to answer that."

pub data RefusalReason : Type 0 where
  no_sources below_threshold : RefusalReason

pub record ThresholdResult : Type 0 where
  pub refuse : Bool
  pub reason : Option RefusalReason
  pub top_score : Option Double

-- The hits by their scores.
unfoldable pub evaluate_threshold : List Double → Double → ThresholdResult
unfolding is_finite lt_double
evaluate_threshold [] threshold = record {
  refuse = true;
  reason = some no_sources;
  top_score = none;
}
evaluate_threshold (top ∷ hits) threshold =
    if not (is_finite top) || lt_double top threshold
    then record { refuse = true; reason = some below_threshold; top_score = some top }
    else record { refuse = false; reason = none; top_score = some top }

-- The best hit is there, its score is a number, and it is at or above the threshold.
abbrev pub BestClears : List Double → Double → Type 0
BestClears [] threshold = ⊥
BestClears (top ∷ hits) threshold = (is_finite top ≡ true) × (lt_double top threshold ≡ false)

-- The gate lets a question through exactly when there is a best hit whose score is finite and not
-- below the threshold; the weaker hits have no say.
pub evaluate_threshold_iff :
    (scores : List Double) (threshold : Double)
    → ((evaluate_threshold scores threshold).refuse ≡ false) ↔ BestClears scores threshold
unfolding evaluate_threshold
evaluate_threshold_iff [] threshold = ((λ h. cc), λ h. elim h [ ])
evaluate_threshold_iff (top ∷ hits) threshold = elim (Bool-cases (is_finite top)) [
  | inl f ↦ elim (Bool-cases (lt_double top threshold)) [
    | inl l ↦ rw (f, l) ((λ h. cc), λ h. cc)
    | inr l ↦ rw (f, l) ((λ h. (refl, refl)), λ h. refl)
  ]
  | inr f ↦ rw f ((λ h. cc), λ h. cc)
]
