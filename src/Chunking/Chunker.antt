-- ===== src/Chunking/Chunker.antt =====
-- `chunkDocument` of api/src/ingestion/chunking/chunker.ts, with the types of types.ts.
pub mod Anchors
pub mod Headings
use mathlib.Core.List.{reverse}
use ai_support_agent_builder.Prelude.{
  ℕ, ◌+◌, List, [], ◌∷◌, ◌++◌, Bool, true, false, Option, none, some, map, ltb, leb, if◌then◌else◌,
}
use ai_support_agent_builder.Text.{codes, is_empty, is_blank_text, join}
use ai_support_agent_builder.Parsing.Types.{AnchoredBlock, ParsedDocument}
use ai_support_agent_builder.Parsing.Assemble.{blank_line}
use ai_support_agent_builder.Chunking.Tokenizer.{Encoder, count_tokens, take_last_tokens}
use ai_support_agent_builder.Chunking.Split.{split_oversized_block}

pub record ChunkDraft : Type 0 where
  pub content : List ℕ
  pub text : List ℕ
  pub page : ℕ
  pub section : Option (List ℕ)
  pub char_start : ℕ
  pub char_end : ℕ
  pub token_count : ℕ

pub record ChunkOptions : Type 0 where
  pub min_tokens : ℕ
  pub max_tokens : ℕ
  pub overlap_tokens : ℕ

abbrev pub default_chunk_options : ChunkOptions
default_chunk_options = record { min_tokens = 500; max_tokens = 800; overlap_tokens = 100 }

pub record HeadingRef : Type 0 where
  pub level : ℕ
  pub text : List ℕ

-- The stack has its top at the head; the source has it at the end of an array.
unfoldable pub section_path : List HeadingRef → Option (List ℕ)
section_path [] = none
section_path (h ∷ hs) = some (join (codes " > ") (map (λ r. r.text) (reverse (h ∷ hs))))

-- The test `section ?` is also false for an empty path.
unfoldable pub context_header : Option (List ℕ) → List ℕ
context_header none = []
context_header (some section) =
    if is_empty section then [] else codes "[Section: " ++ (section ++ codes "]\n\n")

unfoldable pub pop_headings : ℕ → List HeadingRef → List HeadingRef
pop_headings level [] = []
pop_headings level (h ∷ hs) =
    let rest = pop_headings level hs in if leb level h.level then rest else h ∷ hs

unfoldable pub update_headings : List HeadingRef → ℕ → List ℕ → List HeadingRef
unfolding pop_headings
update_headings stack level text = record { level = level; text = text } ∷ pop_headings level stack

-- `level ?? 1`
unfoldable pub level_or_one : Option ℕ → ℕ
level_or_one none = 1
level_or_one (some level) = level

-- The variables of the loop.
pub record Chunker : Type 0 where
  pub headings : List HeadingRef
  pub body : List AnchoredBlock
  pub body_tokens : ℕ
  pub overlap : List ℕ
  pub chunks : List ChunkDraft

-- `body[body.length - 1]!.charEnd`, for the body `b ∷ bs`.
unfoldable pub last_end : AnchoredBlock → List AnchoredBlock → ℕ
last_end b [] = b.char_end
last_end b (c ∷ bs) = last_end c bs

-- `body.map((b) => b.text).join('\n\n')`
unfoldable pub body_text : List AnchoredBlock → List ℕ
body_text body = join blank_line (map (λ b. b.text) body)

unfoldable pub with_prefix : List ℕ → List ℕ → List ℕ
with_prefix overlap text = if is_empty overlap then text else overlap ++ (blank_line ++ text)

module _ (enc : Encoder) (options : ChunkOptions) where
  -- The chunk that `flush` makes of the body `b ∷ bs`.
  unfoldable pub make_chunk :
      List HeadingRef → List ℕ → AnchoredBlock → List AnchoredBlock → ChunkDraft
  unfolding section_path context_header last_end body_text with_prefix count_tokens
  make_chunk headings overlap b bs =
      let section = section_path headings in
      let text = body_text (b ∷ bs) in
      let content = context_header section ++ with_prefix overlap text in
      record {
        content = content;
        text = text;
        page = b.page;
        section = section;
        char_start = b.char_start;
        char_end = last_end b bs;
        token_count = count_tokens enc content;
      }

  flush_body : Chunker → List AnchoredBlock → Chunker
  unfolding make_chunk body_text take_last_tokens
  flush_body c [] = c
  flush_body c (b ∷ bs) = record c {
    body = [];
    body_tokens = 0;
    overlap = take_last_tokens enc (body_text (b ∷ bs)) options.overlap_tokens;
    chunks = c.chunks ++ make_chunk c.headings c.overlap b bs ∷ [];
  }

  unfoldable pub flush : Chunker → Chunker
  unfolding flush_body
  flush c = flush_body c c.body

  -- `for (const sub of …) { body = [sub]; bodyTokens = countTokens(sub.text); flush(); }`
  unfoldable pub flush_subs : Chunker → List AnchoredBlock → Chunker
  unfolding flush count_tokens
  flush_subs c [] = c
  flush_subs c (sub ∷ subs) =
      flush_subs (flush (record c { body = sub ∷ []; body_tokens = count_tokens enc sub.text }))
        subs

  unfoldable pub on_heading : Chunker → AnchoredBlock → Chunker
  unfolding flush update_headings level_or_one
  on_heading c block =
      let d = flush c in
      record d {
        overlap = [];
        headings = update_headings d.headings (level_or_one block.level) block.text;
      }

  unfoldable pub on_oversized : Chunker → AnchoredBlock → Chunker
  unfolding flush flush_subs split_oversized_block
  on_oversized c block =
      flush_subs (record (flush c) { overlap = [] })
        (split_oversized_block enc block options.max_tokens)

  unfoldable pub on_paragraph : Chunker → AnchoredBlock → Chunker
  unfolding flush count_tokens
  on_paragraph c block =
      let t = count_tokens enc block.text in
      let d = if ltb options.max_tokens (c.body_tokens + t) then flush c else c in
      record d { body = d.body ++ block ∷ []; body_tokens = d.body_tokens + t }

  -- One round of the loop over the blocks.
  unfoldable pub chunk_block : Chunker → AnchoredBlock → Chunker
  unfolding on_heading on_oversized on_paragraph is_blank_text count_tokens
  chunk_block c block =
      if block.heading
      then on_heading c block
      else if is_blank_text block.text
      then c
      else if ltb options.max_tokens (count_tokens enc block.text)
      then on_oversized c block
      else on_paragraph c block

  unfoldable pub chunk_blocks : Chunker → List AnchoredBlock → Chunker
  unfolding chunk_block
  chunk_blocks c [] = c
  chunk_blocks c (block ∷ rest) = chunk_blocks (chunk_block c block) rest

  unfoldable pub chunk_document : ParsedDocument → List ChunkDraft
  unfolding chunk_blocks flush
  chunk_document parsed =
      (flush (
        chunk_blocks
          (record { headings = []; body = []; body_tokens = 0; overlap = []; chunks = [] })
          parsed.blocks)).chunks
