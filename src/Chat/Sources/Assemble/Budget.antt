-- ===== src/Chat/Sources/Assemble/Budget.antt =====
-- What `assembleContext` spends: the budget, or the cut of the best hit.
use mathlib.Core.List.{Perm}
use ai_support_agent_builder.Prelude.{
  ℕ, ◌+◌, ◌-◌, ◌≤◌, ◌<◌, max, List, [], ◌∷◌, take, leb, ◌==◌, if_elim, length, ◌≡◌, ◌⊎◌, inl, inr,
  refl, sym, subst, Option-cases, arith, leb→lt, leb→le, ==_iff,
}
use ai_support_agent_builder.Number.{Sign, flip}
use ai_support_agent_builder.Chunking.Tokenizer.{
  Encoder, count_tokens, strip_trailing, truncate_to_tokens,
}
use ai_support_agent_builder.Chat.Sources.Header.{ChunkHit, entry_text}
use ai_support_agent_builder.Chat.Sources.Order.{sort_hits, sort_hits-Ordered, sort_hits-Perm}
use ai_support_agent_builder.Chat.Sources.Assemble.{
  AssembledSource, AssembleOptions, source_of, truncated, admitted, sources_from, assemble_context,
  head_of,
}
use ai_support_agent_builder.Chat.Sources.Assemble.Bounds.{
  entry_tokens, entry_cost, Admitted, admitted-Admitted, sources_from-nil, sources_from-none,
  sources_from-some, budget_step, sources_from-budget, from_zero,
}
use ai_support_agent_builder.Chat.Sources.Assemble.BestFirst.{BestFirst, Ordered-BestFirst}
use ai_support_agent_builder.Chat.Sources.Assemble.Ranked.{
  SourceOf, full_cost, full_cost-entry_cost,
}

-- A text cut to so many tokens: itself where it has no more, else what its first tokens decode to,
-- without broken characters at its end.
abbrev pub CutTo : Encoder → ℕ → List ℕ → List ℕ → Type 0
CutTo enc n text cut =
    ((length (enc.encode text) ≤ n) × (cut ≡ text))
    ⊎ ((n < length (enc.encode text))
        × (cut ≡ strip_trailing (enc.decode (take n (enc.encode text)))))

truncate_to_tokens-CutTo :
    (enc : Encoder) (text : List ℕ) (n : ℕ)
    → 1 ≤ n
    → CutTo enc n text (truncate_to_tokens enc text n)
unfolding truncate_to_tokens
truncate_to_tokens-CutTo enc text n some_left =
    if_elim (CutTo enc n text) (n == 0) _ _ (λ e. let f = (==_iff n 0).0 e in absurd (omega arith))
      (λ e.
        if_elim (CutTo enc n text) (leb (length (enc.encode text)) n) _ _
          (λ short. inl (leb→le _ _ short, refl)) (λ long. inr (leb→lt _ _ long, refl)))

module _ (enc : Encoder) (options : AssembleOptions) where
  -- The tokens that the header of the best hit leaves, one at least.
  abbrev pub left_for : ChunkHit → ℕ
  left_for best = max (options.token_budget - count_tokens enc (entry_text (head_of 1 best) [])) 1

  -- The only source is the best hit, whose entry is over the budget, with its text cut to what the
  -- header leaves.
  pub record CutAlone (hits : List ChunkHit) (ss : List AssembledSource) : Type 0 where
    pub best : ChunkHit
    pub others : List ChunkHit
    pub source : AssembledSource
    pub first : hits ≡ best ∷ others
    pub over : options.token_budget < full_cost enc options 1 best
    pub alone : ss ≡ source ∷ []
    pub entry : SourceOf 1 best source
    pub cut : CutTo enc (left_for best) best.content source.content

  -- The entries keep to the budget together, or there is one, cut.
  abbrev pub Budgeted : List ChunkHit → List AssembledSource → Type 0
  Budgeted hits ss = (entry_tokens enc ss ≤ options.token_budget) ⊎ CutAlone hits ss

  truncated-CutTo :
      (hit : ChunkHit) → CutTo enc (left_for hit) hit.content (truncated enc options hit)
  unfolding truncated
  truncated-CutTo hit = truncate_to_tokens-CutTo enc hit.content (left_for hit) (omega arith)

  first_step :
      (hit : ChunkHit) (content : List ℕ) (hits : List ChunkHit) (ss : List AssembledSource)
      → Admitted enc options 0 0 hit content
      → (0 + entry_cost enc options 0 hit content + entry_tokens enc ss ≤ options.token_budget)
        ⊎ (ss ≡ [])
      → Budgeted (hit ∷ hits) (source_of 1 hit content ∷ ss)
  unfolding Admitted
  first_step hit content hits ss (room, inl (fits, same)) rest =
      inl (from_zero _ _ (budget_step enc options 0 0 hit content ss fits rest))
  first_step hit content hits ss (room, inr (first, over, e)) (inl rest) =
      inl (from_zero _ _ (budget_step enc options 0 0 hit content ss (omega arith) (inl rest)))
  first_step hit content hits ss (room, inr (first, over, e)) (inr none_left) = inr (record {
    best = hit;
    others = hits;
    source = source_of 1 hit content;
    first = refl;
    over = let cost = full_cost-entry_cost enc options 0 hit in omega (arith, over);
    alone = rw none_left refl;
    entry = record {
      number = refl;
      chunk = refl;
      document = refl;
      title = refl;
      page = refl;
      section = refl;
      char_start = refl;
      char_end = refl;
      score = refl;
    };
    cut = subst (CutTo enc (left_for hit) hit.content) (sym e) (truncated-CutTo hit);
  })

  sources_from-Budgeted : (hits : List ChunkHit) → Budgeted hits (sources_from enc options 0 0 hits)
  sources_from-Budgeted [] =
      subst (Budgeted []) (sources_from-nil enc options 0 0) (inl (omega arith))
  sources_from-Budgeted (hit ∷ hits) = elim (Option-cases (admitted enc options 0 0 hit)) [
    | inl e ↦
        subst (Budgeted (hit ∷ hits)) (sym (sources_from-none enc options 0 0 hit hits e))
          (inl (omega arith))
    | inr (content, e) ↦
        subst (Budgeted (hit ∷ hits)) (sym (sources_from-some enc options 0 0 hit hits content e)) (
          first_step hit content hits _ (admitted-Admitted enc options 0 0 hit content e) (
            sources_from-budget enc options 1 (0 + entry_cost enc options 0 hit content) hits
              (omega arith)))
  ]

  module _ (locale_compare : List ℕ → List ℕ → Sign)
      (locale_compare-flip : (s t : List ℕ) → locale_compare t s ≡ flip (locale_compare s t)) where
    -- Where `localeCompare` gives swapped texts the opposite sign, the tokens of the entries,
    -- counted one by one, keep to the budget together, unless the entry of the best hit alone is
    -- over it and only that hit is a source, under number 1, with its fields: its text is then cut
    -- to the tokens that the rest of the entry leaves of the budget, to one token where it leaves
    -- none.
    pub assemble_context-Budgeted :
        (hits : List ChunkHit)
        → (ordered : List ChunkHit) × Perm ordered hits
          × BestFirst locale_compare ordered
          × Budgeted ordered (assemble_context enc locale_compare hits options).sources
    unfolding assemble_context
    assemble_context-Budgeted hits = (
      sort_hits locale_compare hits,
      sort_hits-Perm locale_compare hits,
      Ordered-BestFirst locale_compare _
          (sort_hits-Ordered locale_compare locale_compare-flip hits),
      sources_from-Budgeted (sort_hits locale_compare hits),
    )
