-- ===== src/Parsing/Markdown.antt =====
-- api/src/ingestion/parsing/markdown.ts: ATX headings and paragraphs, with fenced code.
pub mod Levels
use ai_support_agent_builder.Prelude.{
  ℕ, zero, suc, ◌+◌, List, [], ◌∷◌, ◌++◌, Bool, true, false, ◌&&◌, ◌||◌, not, Option, none, some,
  leb, ltb, ◌==◌, if◌then◌else◌, map, drop, ◌≡◌, refl,
}
use ai_support_agent_builder.Text.{
  codes, is_empty, is_space, trim, trim_start, trim_end, collapse, is_blank, is_blank_text, join,
  span, starts_with, normalize_newlines,
}
use ai_support_agent_builder.Parsing.Types.{RawBlock, FormatParseResult, Parsed, returned, ◌>>=◌}
use ai_support_agent_builder.Parsing.Decode.{decode_utf8}
use ai_support_agent_builder.Parsing.Txt.{paragraph, warn_if_empty}

-- `split('\n')`
unfoldable pub split_lines : List ℕ → List ℕ → List (List ℕ)
split_lines line [] = line ∷ []
split_lines line (c ∷ s) =
    let next = split_lines [] s in
    let longer = split_lines (line ++ c ∷ []) s in if c == 10 then line ∷ next else longer

-- `/^\s*(```|~~~)/.test(line)`
unfoldable pub is_fence : List ℕ → Bool
unfolding trim_start starts_with
is_fence line =
    starts_with (trim_start line) (codes "```") || starts_with (trim_start line) (codes "~~~")

-- A unit that `.` does not match.
unfoldable pub ends_line : ℕ → Bool
ends_line c = c == 10 || c == 13 || c == 0x2028 || c == 0x2029

unfoldable pub no_line_end : List ℕ → Bool
unfolding ends_line
no_line_end [] = true
no_line_end (c ∷ s) = not (ends_line c) && no_line_end s

unfoldable pub is_hash : ℕ → Bool
is_hash c = c == b'#'

-- `/^(#{1,6})\s+(.*\S)\s*$/.exec(line)`: the level and the text. The `\s+` takes the whole run of
-- white space, and `(.*\S)` reaches to the last visible unit, if no line end lies in between.
unfoldable pub atx_heading : List ℕ → Option (ℕ × List ℕ)
unfolding is_hash span trim_start trim_end no_line_end is_space
atx_heading line =
    let level = span is_hash line in
    let rest = drop level line in
    let text = trim_end (trim_start rest) in
    if leb 1 level
      && (leb level 6 && (ltb 0 (span is_space rest) && (not (is_empty text) && no_line_end text)))
    then some (level, text)
    else none

-- The variables of the loop.
pub record MarkdownState : Type 0 where
  pub blocks : List RawBlock
  pub buffer : List (List ℕ)
  pub in_fence : Bool

unfoldable pub flush : MarkdownState → MarkdownState
unfolding join collapse is_blank trim
flush s =
    let text = trim (collapse is_blank (join (codes " ") s.buffer)) in
    record s {
      blocks = if is_empty text then s.blocks else s.blocks ++ paragraph text 1 ∷ [];
      buffer = [];
    }

push_line : MarkdownState → List ℕ → MarkdownState
unfolding trim
push_line s line = record s { buffer = s.buffer ++ trim line ∷ [] }

push_heading : MarkdownState → ℕ × List ℕ → MarkdownState
unfolding flush trim
push_heading s (level, text) =
    let t = flush s in
    record t {
      blocks =
          t.blocks
          ++ record { text = trim text; page = 1; heading = true; level = some level } ∷ [];
    }

-- The branches for a line that is no fence, by the match of the heading.
unfoldable pub on_text_line : MarkdownState → List ℕ → Option (ℕ × List ℕ) → MarkdownState
unfolding flush push_line push_heading is_blank_text
on_text_line s line (some heading) = push_heading s heading
on_text_line s line none =
    if not s.in_fence && is_blank_text line then flush s else push_line s line

-- One round of the loop over the lines.
unfoldable pub on_line : MarkdownState → List ℕ → MarkdownState
unfolding is_fence atx_heading push_line on_text_line
on_line s line =
    if is_fence line
    then push_line (record s { in_fence = not s.in_fence }) line
    else on_text_line s line (if s.in_fence then none else atx_heading line)

unfoldable pub on_lines : MarkdownState → List (List ℕ) → MarkdownState
unfolding on_line
on_lines s [] = s
on_lines s (line ∷ lines) = on_lines (on_line s line) lines

unfoldable pub markdown_blocks : List ℕ → List RawBlock
unfolding split_lines normalize_newlines on_lines flush
markdown_blocks text =
    (flush (
      on_lines (record { blocks = []; buffer = []; in_fence = false })
        (split_lines [] (normalize_newlines text)))).blocks

unfoldable pub parse_markdown : List ℕ → Parsed FormatParseResult
unfolding decode_utf8 markdown_blocks
parse_markdown bytes = do
  text ← decode_utf8 bytes
  let blocks = markdown_blocks text
  returned (record {
    blocks = blocks;
    page_count = 1;
    warnings = warn_if_empty (codes "no text content") blocks;
  })

fenced_hash :
    markdown_blocks (codes "# Title \none\ntwo\n\n```\n# not a heading\n```\n## Sub")
    ≡ record { text = codes "Title"; page = 1; heading = true; level = some 1 }
      ∷ paragraph (codes "one two") 1
      ∷ paragraph (codes "``` # not a heading ```") 1
      ∷ record { text = codes "Sub"; page = 1; heading = true; level = some 2 }
      ∷ []
unfolding markdown_blocks
fenced_hash = refl
