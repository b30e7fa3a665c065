-- ===== src/Chat/Sources/Assemble/Ranked.antt =====
-- What `assembleContext` gives: which hits, in which order, and under which numbers.
use mathlib.Core.List.{Perm}
use ai_support_agent_builder.Prelude.{
  ℕ, suc, ◌+◌, ◌≤◌, ◌<◌, List, [], ◌∷◌, length, ◌≡◌, ◌⊎◌, inl, inr, refl, sym, subst, Option-cases,
  arith,
}
use ai_support_agent_builder.Number.{Sign, flip}
use ai_support_agent_builder.Chunking.Tokenizer.{Encoder, count_tokens}
use ai_support_agent_builder.Chat.Sources.Header.{ChunkHit, entry_text}
use ai_support_agent_builder.Chat.Sources.Order.{sort_hits, sort_hits-Ordered, sort_hits-Perm}
use ai_support_agent_builder.Chat.Sources.Assemble.{
  AssembledSource, AssembleOptions, source_of, admitted, sources_from, assemble_context, head_of,
}
use ai_support_agent_builder.Chat.Sources.Assemble.Bounds.{
  entry_tokens, entry_cost, Admitted, admitted-Admitted, admitted-none, sources_from-nil,
  sources_from-none, sources_from-some, entry_cost-source_text,
}
use ai_support_agent_builder.Chat.Sources.Assemble.BestFirst.{BestFirst, Ordered-BestFirst}

-- The source is the hit under a number, its text apart.
pub record SourceOf (marker : ℕ) (hit : ChunkHit) (s : AssembledSource) : Type 0 where
  pub number : s.marker ≡ marker
  pub chunk : s.chunk_id ≡ hit.id
  pub document : s.document_id ≡ hit.document_id
  pub title : s.title ≡ hit.title
  pub page : s.page ≡ hit.page
  pub section : s.section ≡ hit.section
  pub char_start : s.char_start ≡ hit.char_start
  pub char_end : s.char_end ≡ hit.char_end
  pub score : s.score ≡ hit.score

suc_plus : (m n : ℕ) → suc m + n ≡ m + suc n
suc_plus m n = omega arith

plus_zero : (n : ℕ) → n ≡ n + 0
plus_zero n = omega arith

module _ (enc : Encoder) (options : AssembleOptions) where
  -- The tokens of the entry with all of the hit's text.
  abbrev pub full_cost : ℕ → ChunkHit → ℕ
  full_cost marker hit = count_tokens enc (entry_text (head_of marker hit) hit.content)

  -- The sources are the first of the hits, numbered from the count on, and `rest` are the other
  -- hits. A source has the hit's text, but for the very first where that alone is over the budget.
  abbrev pub Numbered : ℕ → List ChunkHit → List ChunkHit → List AssembledSource → Type 0
  Numbered count hits rest [] = hits ≡ rest
  Numbered count [] rest (s ∷ ss) = ⊥
  Numbered count (hit ∷ hits) rest (s ∷ ss) =
      SourceOf (suc count) hit s
      × ((s.content ≡ hit.content) ⊎ ((count ≡ 0) × (options.token_budget < full_cost 1 hit)))
      × Numbered (suc count) hits rest ss

  -- Why no source follows: no hit is left, or there is no room for one, or the next is over what
  -- is left of the budget.
  abbrev pub Stopped : ℕ → ℕ → List ChunkHit → List AssembledSource → Type 0
  Stopped count used rest ss =
      (rest ≡ [])
      ⊎ ((options.max_sources ≤ count + length ss)
          ⊎ ((next : ChunkHit) × (more : List ChunkHit) × (rest ≡ next ∷ more)
              × (options.token_budget
                  < used + entry_tokens enc ss + full_cost (suc (count + length ss)) next)))

  abbrev Ends : ℕ → ℕ → List ChunkHit → List AssembledSource → Type 0
  Ends count used hits ss =
      (rest : List ChunkHit) × Numbered count hits rest ss × Stopped count used rest ss

  pub full_cost-entry_cost :
      (count : ℕ) (hit : ChunkHit)
      → entry_cost enc options count hit hit.content ≡ full_cost (suc count) hit
  unfolding entry_cost
  full_cost-entry_cost count hit = refl

  source_of-content :
      (count used : ℕ) (hit : ChunkHit) (content : List ℕ)
      → (count ≡ 0 → used ≡ 0)
      → Admitted enc options count used hit content
      → (content ≡ hit.content) ⊎ ((count ≡ 0) × (options.token_budget < full_cost 1 hit))
  unfolding Admitted
  source_of-content count used hit content fresh (room, inl (fits, same)) = inl same
  source_of-content count used hit content fresh (room, inr (first, over, cut)) = inr (
    first,
    subst (λ n. options.token_budget < full_cost (suc n) hit) first
        (let none_used = fresh first in
          let cost = full_cost-entry_cost count hit in omega (arith, over)),
  )

  Stopped-cons :
      (count used : ℕ) (hit : ChunkHit) (content : List ℕ) (rest : List ChunkHit)
      (ss : List AssembledSource)
      → Stopped (suc count) (used + entry_cost enc options count hit content) rest ss
      → Stopped count used rest (source_of (suc count) hit content ∷ ss)
  Stopped-cons count used hit content rest ss (inl e) = inl e
  Stopped-cons count used hit content rest ss (inr (inl full)) = inr (inl (omega arith))
  Stopped-cons count used hit content rest ss (inr (inr (next, more, e, over))) = inr (
      inr (
        next,
        more,
        e,
        subst
            (λ n.
              options.token_budget
              < used
                + entry_tokens enc (source_of (suc count) hit content ∷ ss)
                + full_cost (suc n) next)
            (suc_plus count (length ss))
            (omega (arith, over, entry_cost-source_text enc options count hit content)),
      ))

  sources_from-Ends :
      (count used : ℕ) (hits : List ChunkHit)
      → (count ≡ 0 → used ≡ 0)
      → Ends count used hits (sources_from enc options count used hits)
  sources_from-Ends count used [] fresh =
      subst (Ends count used []) (sources_from-nil enc options count used) ([], refl, inl refl)
  sources_from-Ends count used (hit ∷ hits) fresh =
      elim (Option-cases (admitted enc options count used hit)) [
        | inl e ↦
            subst (Ends count used (hit ∷ hits))
              (sym (sources_from-none enc options count used hit hits e))
              (
                hit ∷ hits,
                refl,
                elim (admitted-none enc options count used hit e) [
                  | inl full ↦ inr (inl (omega arith))
                  | inr over ↦ inr (
                      inr (
                        hit,
                        hits,
                        refl,
                        subst (λ n. options.token_budget < used + 0 + full_cost (suc n) hit)
                            (plus_zero count) (omega (arith, over, full_cost-entry_cost count hit)),
                      ))
                ],
              )
        | inr (content, e) ↦
            let a = admitted-Admitted enc options count used hit content e in
            let (rest, numbered, stopped) =
              sources_from-Ends (suc count) (used + entry_cost enc options count hit content) hits
                (λ z. absurd (omega arith)) in
            subst (Ends count used (hit ∷ hits))
              (sym (sources_from-some enc options count used hit hits content e))
              (
                rest,
                (
                  record {
                    number = refl;
                    chunk = refl;
                    document = refl;
                    title = refl;
                    page = refl;
                    section = refl;
                    char_start = refl;
                    char_end = refl;
                    score = refl;
                  },
                  source_of-content count used hit content fresh a,
                  numbered,
                ),
                Stopped-cons count used hit content rest _ stopped,
              )
      ]

  module _ (locale_compare : List ℕ → List ℕ → Sign)
      (locale_compare-flip : (s t : List ℕ) → locale_compare t s ≡ flip (locale_compare s t)) where
    -- Where `localeCompare` gives swapped texts the opposite sign, there is an order of all the
    -- hits, each before the next by its score, then by its document, its start and its id, such
    -- that the sources are the first of them, numbered 1, 2, 3 and so on; each has its hit's
    -- fields, and its hit's text unless it is number 1 and its entry is over the budget. Where a
    -- hit is left out, there are `max_sources` sources, or the entry of the next one goes over the
    -- budget.
    pub assemble_context-Ranked :
        (hits : List ChunkHit)
        → (ordered : List ChunkHit) × Perm ordered hits
          × BestFirst locale_compare ordered
          × (rest : List ChunkHit) × Numbered 0 ordered rest
              (assemble_context enc locale_compare hits options).sources
          × Stopped 0 0 rest (assemble_context enc locale_compare hits options).sources
    unfolding assemble_context
    assemble_context-Ranked hits =
        let (rest, numbered, stopped) =
          sources_from-Ends 0 0 (sort_hits locale_compare hits) (λ e. refl) in
        (
          sort_hits locale_compare hits,
          sort_hits-Perm locale_compare hits,
          Ordered-BestFirst locale_compare _
              (sort_hits-Ordered locale_compare locale_compare-flip hits),
          rest,
          numbered,
          stopped,
        )
