-- ===== src/Chat/Sources/Assemble/Bounds.antt =====
-- What the loop of `assembleContext` keeps to: the cap and the budget.
use ai_support_agent_builder.Prelude.{
  ℕ, suc, ◌+◌, ◌≤◌, ◌<◌, List, [], ◌∷◌, false, none, some, ltb, leb, if_elim, length, ◌≡◌, ◌⊎◌, inl,
  inr, refl, sym, subst, some_inj, Option-cases, arith, ltb→le, leb→lt, ltb→lt, leb→le, Option,
}
use ai_support_agent_builder.Number.{Sign}
use ai_support_agent_builder.Chunking.Tokenizer.{Encoder, count_tokens}
use ai_support_agent_builder.Chat.Sources.Header.{ChunkHit, entry_text}
use ai_support_agent_builder.Chat.Sources.Order.{sort_hits}
use ai_support_agent_builder.Chat.Sources.Assemble.{
  AssembledSource, AssembleOptions, source_of, source_text, truncated, admitted, sources_from,
  assemble_context, head_of,
}

-- The tokens of the entries, one by one.
abbrev pub entry_tokens : Encoder → List AssembledSource → ℕ
entry_tokens enc [] = 0
entry_tokens enc (s ∷ ss) = count_tokens enc (source_text s) + entry_tokens enc ss

pub from_zero : (n b : ℕ) → 0 + n ≤ b → n ≤ b
from_zero n b h = omega arith

zero_of : (n : ℕ) → ltb 0 n ≡ false → n ≡ 0
zero_of n h = omega (arith, ltb→le 0 n h)

module _ (enc : Encoder) (options : AssembleOptions) where
  -- The tokens of the entry that the hit would be, with this content.
  unfoldable pub entry_cost : ℕ → ChunkHit → List ℕ → ℕ
  unfolding count_tokens entry_text
  entry_cost count hit content = count_tokens enc (entry_text (head_of (suc count) hit) content)

  -- What the guards leave of a hit that is admitted, and of one that is not.
  unfoldable pub Admitted : ℕ → ℕ → ChunkHit → List ℕ → Type 0
  unfolding entry_cost truncated
  Admitted count used hit content =
      (suc count ≤ options.max_sources)
      × (((used + entry_cost count hit content ≤ options.token_budget) × (content ≡ hit.content))
          ⊎ ((count ≡ 0)
              × (options.token_budget < used + entry_cost count hit hit.content)
              × (content ≡ truncated enc options hit)))

  pub admitted-Admitted :
      (count used : ℕ) (hit : ChunkHit) (content : List ℕ)
      → admitted enc options count used hit ≡ some content
      → Admitted count used hit content
  unfolding admitted Admitted entry_cost
  admitted-Admitted count used hit content =
      if_elim (λ o. o ≡ some content → Admitted count used hit content)
        (leb options.max_sources count) _ _ (λ e h. cc)
        (λ room.
          if_elim (λ o. o ≡ some content → Admitted count used hit content)
            (ltb options.token_budget (used + entry_cost count hit hit.content)) _ _
            (λ over.
              if_elim (λ o. o ≡ some content → Admitted count used hit content) (ltb 0 count) _ _
                (λ e h. cc)
                (λ first h. (
                  omega (arith, leb→lt _ _ room),
                  inr (zero_of count first, ltb→lt _ _ over, sym (some_inj h)),
                )))
            (λ fits h. (
              omega (arith, leb→lt _ _ room),
              inl (
                subst (λ t. used + entry_cost count hit t ≤ options.token_budget) (some_inj h)
                    (ltb→le _ _ fits),
                sym (some_inj h),
              ),
            )))

  pub admitted-none :
      (count used : ℕ) (hit : ChunkHit)
      → admitted enc options count used hit ≡ none
      → (options.max_sources ≤ count)
        ⊎ (options.token_budget < used + entry_cost count hit hit.content)
  unfolding admitted entry_cost
  admitted-none count used hit =
      let P = λ (o : Option (List ℕ)).
        o ≡ none
        → (options.max_sources ≤ count)
          ⊎ (options.token_budget < used + entry_cost count hit hit.content) in
      if_elim P (leb options.max_sources count) _ _ (λ full h. inl (leb→le _ _ full))
        (λ room.
          if_elim P (ltb options.token_budget (used + entry_cost count hit hit.content)) _ _
            (λ over h. inr (ltb→lt _ _ over)) (λ fits h. cc))

  pub sources_from-nil : (count used : ℕ) → [] ≡ sources_from enc options count used []
  unfolding sources_from
  sources_from-nil count used = refl

  pub sources_from-none :
      (count used : ℕ) (hit : ChunkHit) (hits : List ChunkHit)
      → admitted enc options count used hit ≡ none
      → sources_from enc options count used (hit ∷ hits) ≡ []
  unfolding sources_from
  sources_from-none count used hit hits e = rw (e, sources_from) refl

  pub sources_from-some :
      (count used : ℕ) (hit : ChunkHit) (hits : List ChunkHit) (content : List ℕ)
      → admitted enc options count used hit ≡ some content
      → sources_from enc options count used (hit ∷ hits)
        ≡ source_of (suc count) hit content
          ∷ sources_from enc options (suc count) (used + entry_cost count hit content) hits
  unfolding sources_from entry_cost
  sources_from-some count used hit hits content e = rw (e, sources_from) refl

  -- A bound that holds of no sources, and of more sources if it does of the rest.
  sources_from-elim :
      (P : ℕ → ℕ → List AssembledSource → Type 0)
      → ((count used : ℕ) → P count used [])
      → ((count used : ℕ) (hit : ChunkHit) (content : List ℕ) (ss : List AssembledSource)
          → Admitted count used hit content
          → P (suc count) (used + entry_cost count hit content) ss
          → P count used (source_of (suc count) hit content ∷ ss))
      → (count used : ℕ) (hits : List ChunkHit)
      → P count used (sources_from enc options count used hits)
  sources_from-elim P base step count used [] =
      subst (P count used) (sources_from-nil count used) (base count used)
  sources_from-elim P base step count used (hit ∷ hits) =
      elim (Option-cases (admitted enc options count used hit)) [
        | inl e ↦
            subst (P count used) (sym (sources_from-none count used hit hits e)) (base count used)
        | inr (content, e) ↦
            subst (P count used) (sym (sources_from-some count used hit hits content e)) (
              step count used hit content _ (admitted-Admitted count used hit content e)
                (sources_from-elim P base step (suc count) _ hits))
      ]

  cap_step :
      (count used : ℕ) (hit : ChunkHit) (content : List ℕ) (ss : List AssembledSource)
      → Admitted count used hit content
      → (suc count ≤ options.max_sources → suc count + length ss ≤ options.max_sources)
      → count + suc (length ss) ≤ options.max_sources
  unfolding Admitted
  cap_step count used hit content ss (room, a) ih = omega (arith, ih room)

  pub entry_cost-source_text :
      (count : ℕ) (hit : ChunkHit) (content : List ℕ)
      → count_tokens enc (source_text (source_of (suc count) hit content))
        ≡ entry_cost count hit content
  unfolding entry_cost source_text
  entry_cost-source_text count hit content = refl

  pub budget_step :
      (count used : ℕ) (hit : ChunkHit) (content : List ℕ) (ss : List AssembledSource)
      → used + entry_cost count hit content ≤ options.token_budget
      → (used + entry_cost count hit content + entry_tokens enc ss ≤ options.token_budget)
        ⊎ (ss ≡ [])
      → used + entry_tokens enc (source_of (suc count) hit content ∷ ss) ≤ options.token_budget
  budget_step count used hit content ss fits (inl rest) =
      omega (arith, entry_cost-source_text count hit content)
  budget_step count used hit content ss fits (inr e) =
      rw e (omega (arith, entry_cost-source_text count hit content))

  later_fits :
      (count used : ℕ) (hit : ChunkHit) (content : List ℕ)
      → Admitted count used hit content
      → 1 ≤ count
      → used + entry_cost count hit content ≤ options.token_budget
  unfolding Admitted
  later_fits count used hit content (room, inl (fits, same)) h = fits
  later_fits count used hit content (room, inr (first, over, e)) h = omega arith

  pub sources_from-cap :
      (count used : ℕ) (hits : List ChunkHit)
      → count ≤ options.max_sources
      → count + length (sources_from enc options count used hits) ≤ options.max_sources
  sources_from-cap =
      sources_from-elim
        (λ count used ss. count ≤ options.max_sources → count + length ss ≤ options.max_sources)
        (λ count used h. omega arith)
        (λ count used hit content ss a ih h. cap_step count used hit content ss a ih)

  pub sources_from-budget :
      (count used : ℕ) (hits : List ChunkHit)
      → 1 ≤ count
      → (used + entry_tokens enc (sources_from enc options count used hits) ≤ options.token_budget)
        ⊎ (sources_from enc options count used hits ≡ [])
  sources_from-budget =
      sources_from-elim
        (λ count used ss.
          1 ≤ count → (used + entry_tokens enc ss ≤ options.token_budget) ⊎ (ss ≡ []))
        (λ count used h. inr refl)
        (λ count used hit content ss a ih h. inl (
          budget_step count used hit content ss (later_fits count used hit content a h)
            (ih (omega arith))))

  module _ (locale_compare : List ℕ → List ℕ → Sign) where
    -- There are never more sources than `max_sources`.
    pub assemble_context-cap :
        (hits : List ChunkHit)
        → length (assemble_context enc locale_compare hits options).sources ≤ options.max_sources
    unfolding assemble_context
    assemble_context-cap hits =
        from_zero _ _ (sources_from-cap 0 0 (sort_hits locale_compare hits) (omega arith))
