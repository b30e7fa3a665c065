-- ===== src/Chat/Sources/Assemble.antt =====
-- `assembleContext` of api/src/chat/prompt-assembly.ts.
pub mod Bounds
pub mod BestFirst
pub mod Budget
pub mod Ranked
use ai_support_agent_builder.Prelude.{
  ℕ, suc, ◌+◌, ◌-◌, max, List, [], ◌∷◌, map, Option, none, some, ltb, leb, if◌then◌else◌,
}
use ai_support_agent_builder.Text.{codes, join}
use ai_support_agent_builder.Number.{Double, Sign}
use ai_support_agent_builder.Chunking.Tokenizer.{Encoder, count_tokens, truncate_to_tokens}
use ai_support_agent_builder.Chat.Sources.Header.{ChunkHit, SourceHeader, entry_text}
use ai_support_agent_builder.Chat.Sources.Order.{sort_hits}

pub record AssembledSource : Type 0 where
  pub marker : ℕ
  pub chunk_id : List ℕ
  pub document_id : List ℕ
  pub title : List ℕ
  pub page : Option ℕ
  pub section : Option (List ℕ)
  pub char_start : Option ℕ
  pub char_end : Option ℕ
  pub content : List ℕ
  pub score : Double

pub record AssembledContext : Type 0 where
  pub sources : List AssembledSource
  pub text : List ℕ
  pub total_tokens : ℕ

pub record AssembleOptions : Type 0 where
  pub max_sources : ℕ
  pub token_budget : ℕ

abbrev pub default_assemble_options : AssembleOptions
default_assemble_options = record { max_sources = 5; token_budget = 2000 }

abbrev pub head_of : ℕ → ChunkHit → SourceHeader
head_of marker hit = record {
  marker = marker;
  title = hit.title;
  page = hit.page;
  section = hit.section;
}

-- The object that is pushed.
abbrev pub source_of : ℕ → ChunkHit → List ℕ → AssembledSource
source_of marker hit content = record {
  marker = marker;
  chunk_id = hit.id;
  document_id = hit.document_id;
  title = hit.title;
  page = hit.page;
  section = hit.section;
  char_start = hit.char_start;
  char_end = hit.char_end;
  content = content;
  score = hit.score;
}

-- The text of a source in the block.
unfoldable pub source_text : AssembledSource → List ℕ
unfolding entry_text
source_text s =
    entry_text (record { marker = s.marker; title = s.title; page = s.page; section = s.section })
      s.content

module _ (enc : Encoder) where
  -- The first source alone is too long: what is left of its content.
  unfoldable pub truncated : AssembleOptions → ChunkHit → List ℕ
  unfolding count_tokens truncate_to_tokens entry_text
  truncated options hit =
      let header_tokens = count_tokens enc (entry_text (head_of 1 hit) []) in
      truncate_to_tokens enc hit.content (max (options.token_budget - header_tokens) 1)

  -- The content with which the hit joins `count` sources that have used so many tokens; `none`
  -- where the loop breaks.
  unfoldable pub admitted : AssembleOptions → ℕ → ℕ → ChunkHit → Option (List ℕ)
  unfolding count_tokens truncated entry_text
  admitted options count used hit =
      let entry_tokens = count_tokens enc (entry_text (head_of (suc count) hit) hit.content) in
      if leb options.max_sources count
      then none
      else if ltb options.token_budget (used + entry_tokens)
      then (if ltb 0 count then none else some (truncated options hit))
      else some hit.content

  -- The loop over the hits.
  unfoldable pub sources_from : AssembleOptions → ℕ → ℕ → List ChunkHit → List AssembledSource
  unfolding admitted count_tokens entry_text
  sources_from options count used [] = []
  sources_from options count used (hit ∷ hits) = elim (admitted options count used hit) [
    | none ↦ []
    | some content ↦
        source_of (suc count) hit content
        ∷ sources_from options (suc count)
            (used + count_tokens enc (entry_text (head_of (suc count) hit) content)) hits
  ]

  unfoldable pub assemble_context :
      (List ℕ → List ℕ → Sign) → List ChunkHit → AssembleOptions → AssembledContext
  unfolding sources_from sort_hits source_text join count_tokens
  assemble_context locale_compare hits options =
      let sources = sources_from options 0 0 (sort_hits locale_compare hits) in
      let text = join (codes "\n\n") (map source_text sources) in
      record { sources = sources; text = text; total_tokens = count_tokens enc text }
