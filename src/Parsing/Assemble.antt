-- ===== src/Parsing/Assemble.antt =====
-- api/src/ingestion/parsing/assemble.ts: the blocks joined by a blank line, with their offsets.
pub mod Anchors
use ai_support_agent_builder.Prelude.{ℕ, ◌+◌, List, [], ◌∷◌, ◌++◌, Bool, length, if◌then◌else◌}
use ai_support_agent_builder.Text.{is_empty, trim}
use ai_support_agent_builder.Parsing.Types.{
  RawBlock, AnchoredBlock, FormatParseResult, ParsedDocument,
}

-- The two variables of the loop.
pub record Assembly : Type 0 where
  pub text : List ℕ
  pub blocks : List AnchoredBlock

-- '\n\n'
abbrev pub blank_line : List ℕ
blank_line = 10 ∷ 10 ∷ []

-- The text that a further block is appended to.
unfoldable pub separated : List ℕ → List ℕ
separated text = if is_empty text then text else text ++ blank_line

-- The block `{ ...block, text: trimmed, charStart, charEnd }`.
unfoldable pub anchor : RawBlock → List ℕ → ℕ → AnchoredBlock
anchor block trimmed start = record {
  text = trimmed;
  page = block.page;
  heading = block.heading;
  level = block.level;
  char_start = start;
  char_end = start + length trimmed;
}

-- One round of the loop.
unfoldable pub append_block : Assembly → RawBlock → Assembly
unfolding separated anchor
append_block a block =
    let trimmed = trim block.text in
    if is_empty trimmed then a else record {
      text = separated a.text ++ trimmed;
      blocks = a.blocks ++ anchor block trimmed (length (separated a.text)) ∷ [];
    }

unfoldable pub append_blocks : Assembly → List RawBlock → Assembly
unfolding append_block
append_blocks a [] = a
append_blocks a (block ∷ rest) = append_blocks (append_block a block) rest

unfoldable pub assemble : FormatParseResult → ParsedDocument
unfolding append_blocks
assemble result =
    let done = append_blocks (record { text = []; blocks = [] }) result.blocks in
    record {
      text = done.text;
      page_count = result.page_count;
      warnings = result.warnings;
      blocks = done.blocks;
    }
