-- ===== src/Tests/Ingestion.antt =====
-- Parsing and chunking.
use mathlib.Core.List.{reverse}
use ai_support_agent_builder.Prelude.{ℕ, List, [], ◌∷◌, ◌≡◌, refl, length, none, true, false}
use ai_support_agent_builder.Text.{codes}
use ai_support_agent_builder.Text.Occurs.{Occurs}
use ai_support_agent_builder.Parsing.Types.{
  txt, FormatParseResult, ParsedDocument, AnchoredBlock, returned,
}
use ai_support_agent_builder.Parsing.Sniff.{content_matches_type}
use ai_support_agent_builder.Parsing.Assemble.{assemble}
use ai_support_agent_builder.Parsing.Assemble.Anchors.{Laid}
use ai_support_agent_builder.Parsing.Document.{parse_document, parse_format, parse_document-Laid}
use ai_support_agent_builder.Parsing.Pdf.{parse_pages}
use ai_support_agent_builder.Chunking.Chunker.{Chunker, chunk_document, chunk_blocks}
use ai_support_agent_builder.Chunking.Chunker.Anchors.{ChunkSpans, chunk_document-ChunkSpans}
use ai_support_agent_builder.Chunking.Chunker.Headings.{
  open_headings, headings_of, chunk_blocks-open_headings,
}
use ai_support_agent_builder.Tests.Data.{
  unit_encoder, readers, two_pages, three_blocks, small_chunks,
}

abbrev note : List ℕ
note = codes "One.\n\nTwo."

abbrev parsed_note : ParsedDocument
parsed_note = record {
  text = note;
  page_count = 1;
  warnings = [];
  blocks =
      record {
        text = codes "One.";
        page = 1;
        heading = false;
        level = none;
        char_start = 0;
        char_end = 4;
      }
      ∷ record {
        text = codes "Two.";
        page = 1;
        heading = false;
        level = none;
        char_start = 6;
        char_end = 10;
      }
      ∷ [];
}

note_parses : parse_document readers txt note ≡ returned parsed_note
unfolding parse_document content_matches_type assemble parse_format
note_parses = refl

parse_document-Laid_example :
    (content_matches_type txt note ≡ true)
    × Laid parsed_note.text 0 parsed_note.blocks (length parsed_note.text)
    × ((result : FormatParseResult) × (parse_format readers txt note ≡ returned result)
        × (parsed_note ≡ assemble result))
parse_document-Laid_example = parse_document-Laid readers txt note parsed_note note_parses

abbrev page_blocks : FormatParseResult
page_blocks = record {
  blocks =
      record { text = codes "A page with text."; page = 1; heading = false; level = none }
      ∷ record { text = codes "A page with text."; page = 2; heading = false; level = none }
      ∷ [];
  page_count = 2;
  warnings = [];
}

pages_parse : parse_pages two_pages ≡ returned page_blocks
unfolding parse_pages
pages_parse = refl

abbrev long_block : AnchoredBlock
long_block = record {
  text = codes "Hi. Yo. ";
  page = 1;
  heading = false;
  level = none;
  char_start = 3;
  char_end = 11;
}

abbrev long_text : List ℕ
long_text = codes "..\nHi. Yo. "

long_block-placed : Occurs long_text long_block.text 3 11
long_block-placed = record {
  before = codes "..\n";
  after = [];
  parts = refl;
  starts = refl;
  ends = refl;
}

chunk_document-ChunkSpans_example :
    ChunkSpans
      (assemble three_blocks).text
      0
      (chunk_document unit_encoder small_chunks (assemble three_blocks))
      (length (assemble three_blocks).text)
chunk_document-ChunkSpans_example = chunk_document-ChunkSpans unit_encoder small_chunks three_blocks

abbrev fresh : Chunker
fresh = record { headings = []; body = []; body_tokens = 0; overlap = []; chunks = [] }

chunk_blocks-open_headings_example :
    (chunk_blocks unit_encoder small_chunks fresh (assemble three_blocks).blocks).headings
    ≡ reverse (open_headings (headings_of (assemble three_blocks).blocks))
chunk_blocks-open_headings_example =
    chunk_blocks-open_headings unit_encoder small_chunks fresh (assemble three_blocks).blocks refl
