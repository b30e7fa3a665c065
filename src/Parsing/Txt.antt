-- ===== src/Parsing/Txt.antt =====
-- api/src/ingestion/parsing/txt.ts: paragraphs split on blank lines.
use ai_support_agent_builder.Prelude.{
  ℕ, zero, suc, List, [], ◌∷◌, ◌++◌, false, none, leb, ◌==◌, if◌then◌else◌, map, ◌≡◌, refl,
}
use ai_support_agent_builder.Text.{codes, is_empty, trim, collapse, is_blank, normalize_newlines}
use ai_support_agent_builder.Parsing.Types.{RawBlock, FormatParseResult, Parsed, returned, ◌>>=◌}
use ai_support_agent_builder.Parsing.Decode.{decode_utf8}

-- `n` newlines.
unfoldable pub newlines : ℕ → List ℕ
newlines zero = []
newlines (suc n) = 10 ∷ newlines n

-- `split(/\n{2,}/)`: the part at hand, and the newlines seen behind it.
unfoldable pub split_from : List ℕ → ℕ → List ℕ → List (List ℕ)
unfolding newlines
split_from part n [] = if leb 2 n then part ∷ [] ∷ [] else (part ++ newlines n) ∷ []
split_from part n (c ∷ s) =
    let counted = split_from part (suc n) s in
    let next = split_from (c ∷ []) 0 s in
    let longer = split_from (part ++ (newlines n ++ c ∷ [])) 0 s in
    if c == 10 then counted else if leb 2 n then part ∷ next else longer

unfoldable pub split_paragraphs : List ℕ → List (List ℕ)
unfolding split_from
split_paragraphs s = split_from [] 0 s

-- `.filter(Boolean)`
unfoldable pub drop_empty : List (List ℕ) → List (List ℕ)
drop_empty [] = []
drop_empty (t ∷ ts) = let rest = drop_empty ts in if is_empty t then rest else t ∷ rest

-- `{ text, page }`
abbrev pub paragraph : List ℕ → ℕ → RawBlock
paragraph text page = record { text = text; page = page; heading = false; level = none }

-- `blocks.length ? [] : [warning]`
abbrev pub warn_if_empty : List ℕ → List RawBlock → List (List ℕ)
warn_if_empty warning [] = warning ∷ []
warn_if_empty warning (b ∷ bs) = []

unfoldable pub txt_blocks : List ℕ → List RawBlock
unfolding split_paragraphs drop_empty collapse trim is_blank normalize_newlines
txt_blocks text =
    map (λ t. paragraph t 1)
      (drop_empty
        (map (λ p. trim (collapse is_blank p)) (split_paragraphs (normalize_newlines text))))

unfoldable pub parse_txt : List ℕ → Parsed FormatParseResult
unfolding decode_utf8 txt_blocks
parse_txt bytes = do
  text ← decode_utf8 bytes
  let blocks = txt_blocks text
  returned (record {
    blocks = blocks;
    page_count = 1;
    warnings = warn_if_empty (codes "no text content") blocks;
  })

two_paragraphs :
    map (λ (b : RawBlock). b.text) (txt_blocks (codes "one\ttwo\n\n\n three \nfour\n\n"))
    ≡ codes "one two" ∷ codes "three \nfour" ∷ []
unfolding txt_blocks
two_paragraphs = refl
