-- ===== src/Tests/Data.antt =====
-- The data that the tests share.
use ai_support_agent_builder.Prelude.{ℕ, List, [], ◌∷◌, none, some, true, false}
use ai_support_agent_builder.Text.{codes}
use ai_support_agent_builder.Number.{finite, pos, Sign, zero_or_nan}
use ai_support_agent_builder.Chunking.Tokenizer.{Encoder}
use ai_support_agent_builder.Chunking.Chunker.{ChunkOptions}
use ai_support_agent_builder.Parsing.Types.{RawBlock, FormatParseResult, returned}
use ai_support_agent_builder.Parsing.Pdf.{Readers, PdfDocument, text_item}
use ai_support_agent_builder.Chat.Sources.Header.{ChunkHit}

-- An encoder with a token for each unit.
abbrev pub unit_encoder : Encoder
unit_encoder = record { encode = λ s. s; decode = λ s. s }

abbrev pub two_pages : PdfDocument
two_pages = record {
  num_pages = 2;
  page_items = λ page. returned (text_item (some (codes "A page with text.")) true ∷ []);
}

abbrev pub readers : Readers
readers = record { open_pdf = λ bytes. returned two_pages; docx_html = λ bytes. returned bytes }

abbrev pub paragraph_block : List ℕ → RawBlock
paragraph_block s = record { text = s; page = 1; heading = false; level = none }

abbrev pub heading_block : ℕ → List ℕ → RawBlock
heading_block n s = record { text = s; page = 1; heading = true; level = some n }

abbrev pub three_blocks : FormatParseResult
three_blocks = record {
  blocks =
      heading_block 1 (codes "T")
      ∷ paragraph_block (codes " Hi. Yo. ")
      ∷ heading_block 2 (codes "U")
      ∷ [];
  page_count = 1;
  warnings = [];
}

abbrev pub small_chunks : ChunkOptions
small_chunks = record { min_tokens = 1; max_tokens = 4; overlap_tokens = 1 }

abbrev pub hit_of : List ℕ → ℕ → ChunkHit
hit_of id score = record {
  id = id;
  content = codes "abc";
  document_id = codes "d";
  title = codes "T";
  page = none;
  section = none;
  char_start = none;
  char_end = none;
  score = finite (pos score);
}

abbrev pub two_hits : List ChunkHit
two_hits = hit_of (codes "x") 1 ∷ hit_of (codes "y") 2 ∷ []

-- An order in which all texts are equal.
abbrev pub flat : List ℕ → List ℕ → Sign
flat s t = zero_or_nan
