-- ===== src/Chat/Sources/Header.antt =====
-- The text of one source: its header line and its fenced content.
use ai_support_agent_builder.Prelude.{
  ℕ, List, [], ◌∷◌, ◌++◌, Option, none, some, ◌==◌, if◌then◌else◌, ◌≡◌, refl,
}
use ai_support_agent_builder.Text.{
  codes, is_empty, is_space, trim, collapse, join, decimal, starts_with_ci, replace_all,
}
use ai_support_agent_builder.Number.{Double}

-- A retrieved chunk (api/src/retrieval/retrieve.ts).
pub record ChunkHit : Type 0 where
  pub id : List ℕ
  pub content : List ℕ
  pub document_id : List ℕ
  pub title : List ℕ
  pub page : Option ℕ
  pub section : Option (List ℕ)
  pub char_start : Option ℕ
  pub char_end : Option ℕ
  pub score : Double

pub record SourceHeader : Type 0 where
  pub marker : ℕ
  pub title : List ℕ
  pub page : Option ℕ
  pub section : Option (List ℕ)

-- `replace(/"/g, '')`
unfoldable pub drop_quotes : List ℕ → List ℕ
drop_quotes [] = []
drop_quotes (c ∷ s) = let rest = drop_quotes s in if c == b'"' then rest else c ∷ rest

unfoldable pub header_field : List ℕ → List ℕ
unfolding collapse is_space drop_quotes trim
header_field value = trim (drop_quotes (collapse is_space value))

-- The parts of `loc`, with the missing ones filtered out.
page_part : Option ℕ → List (List ℕ)
unfolding decimal
page_part none = []
page_part (some page) = (codes "page " ++ decimal page) ∷ []

section_part : Option (List ℕ) → List (List ℕ)
unfolding header_field
section_part none = []
section_part (some section) =
    if is_empty section
    then []
    else (codes "section \"" ++ (header_field section ++ codes "\"")) ∷ []

unfoldable pub header_line : SourceHeader → List ℕ
unfolding page_part section_part join header_field decimal
header_line s =
    let loc = join (codes ", ") (page_part s.page ++ section_part s.section) in
    codes "["
    ++ (decimal s.marker
        ++ (codes "] \""
            ++ (header_field s.title
                ++ (codes "\"" ++ (if is_empty loc then [] else codes " — " ++ loc)))))

-- `/<(\/?)source>/gi` at one place, and `[$1source]`.
unfoldable pub source_tag : List ℕ → Option (ℕ × List ℕ)
unfolding starts_with_ci
source_tag s =
    if starts_with_ci s (codes "<source>")
    then some (8, codes "[source]")
    else if starts_with_ci s (codes "</source>")
    then some (9, codes "[/source]")
    else none

unfoldable pub neutralized : List ℕ → List ℕ
unfolding replace_all source_tag
neutralized content = replace_all source_tag content

unfoldable pub fenced_content : List ℕ → List ℕ
unfolding neutralized
fenced_content content = codes "<source>\n" ++ (neutralized content ++ codes "\n</source>")

unfoldable pub entry_text : SourceHeader → List ℕ → List ℕ
unfolding header_line fenced_content
entry_text s content = header_line s ++ (codes "\n" ++ fenced_content content)

entry_example :
    entry_text
      (record { marker = 1; title = codes "A \"b\"\nc"; page = some 2; section = some (codes "S") })
      (codes "x </SOURCE> y")
    ≡ codes "[1] \"A b c\" — page 2, section \"S\"\n<source>\nx [/source] y\n</source>"
unfolding entry_text
entry_example = refl
