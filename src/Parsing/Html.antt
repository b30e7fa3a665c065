-- ===== src/Parsing/Html.antt =====
-- api/src/ingestion/parsing/html-blocks.ts: headings and paragraphs of flat HTML.
use ai_support_agent_builder.Prelude.{
  ℕ, ◌+◌, ◌-◌, ◌*◌, List, [], ◌∷◌, ◌++◌, Bool, true, ◌&&◌, ◌||◌, not, Option, none, some, leb, ltb,
  ◌==◌, if◌then◌else◌, drop, take, length, ◌≡◌, refl,
}
use ai_support_agent_builder.Text.{
  codes, is_empty, is_space, trim, collapse, span, starts_with, starts_with_ci, to_lower_case,
  replace_all, Found, match_all, is_digit, number,
}
use ai_support_agent_builder.Parsing.Types.{RawBlock}
use ai_support_agent_builder.Parsing.Txt.{paragraph}
use ai_support_agent_builder.Parsing.Decode.{units}

-- `decodeCodePoint`; a surrogate is one unit, as `String.fromCodePoint` gives it.
unfoldable pub decode_code_point : ℕ → List ℕ
unfolding units
decode_code_point value = if leb value 0x10ffff then units value else []

not_gt : ℕ → Bool
not_gt c = not (c == b'>')

-- `/<[^>]+>/` → ''
unfoldable pub tag : List ℕ → Option (ℕ × List ℕ)
unfolding span not_gt
tag [] = none
tag (c ∷ s) =
    let n = span not_gt s in
    if c == b'<' && (ltb 0 n && starts_with (drop n s) (codes ">")) then some (n + 2, []) else none

is_hex : ℕ → Bool
unfolding is_digit
is_hex c = is_digit c || (leb b'a' c && leb c b'f') || (leb b'A' c && leb c b'F')

hex_digit : ℕ → ℕ
unfolding is_digit
hex_digit c = if is_digit c then c - b'0' else if leb b'a' c then c - 87 else c - 55

unfoldable pub hex_number : ℕ → List ℕ → ℕ
unfolding hex_digit
hex_number n [] = n
hex_number n (c ∷ s) = hex_number (n * 16 + hex_digit c) s

-- `/&#x([0-9a-fA-F]+);/`
unfoldable pub hex_entity : List ℕ → Option (ℕ × List ℕ)
unfolding span is_hex hex_number decode_code_point starts_with
hex_entity s =
    let digits = drop 3 s in
    let n = span is_hex digits in
    if starts_with s (codes "&#x") && (ltb 0 n && starts_with (drop n digits) (codes ";"))
    then some (n + 4, decode_code_point (hex_number 0 (take n digits)))
    else none

-- `/&#(\d+);/`
unfoldable pub decimal_entity : List ℕ → Option (ℕ × List ℕ)
unfolding span is_digit number decode_code_point starts_with
decimal_entity s =
    let digits = drop 2 s in
    let n = span is_digit digits in
    if starts_with s (codes "&#") && (ltb 0 n && starts_with (drop n digits) (codes ";"))
    then some (n + 3, decode_code_point (number (take n digits)))
    else none

-- The table `ENTITIES`.
abbrev pub entities : List (List ℕ × List ℕ)
entities =
    (codes "&amp;", codes "&")
    ∷ (codes "&lt;", codes "<")
    ∷ (codes "&gt;", codes ">")
    ∷ (codes "&quot;", b'"' ∷ [])
    ∷ (codes "&#39;", codes "'")
    ∷ (codes "&nbsp;", codes " ")
    ∷ []

unfoldable pub first_entity : List (List ℕ × List ℕ) → List ℕ → Option (ℕ × List ℕ)
unfolding starts_with
first_entity [] s = none
first_entity ((name, value) ∷ more) s =
    let rest = first_entity more s in if starts_with s name then some (length name, value) else rest

unfoldable pub strip_tags : List ℕ → List ℕ
unfolding replace_all tag hex_entity decimal_entity first_entity collapse trim is_space
strip_tags html = trim (
    collapse is_space (
      replace_all (first_entity entities)
        (replace_all decimal_entity (replace_all hex_entity (replace_all tag html)))))

-- `\w`
is_word : ℕ → Bool
unfolding is_digit
is_word c = is_digit c || (leb b'a' c && leb c b'z') || (leb b'A' c && leb c b'Z') || c == b'_'

-- `(h[1-6]|p)` in either case, and `\b`: the length of the name.
unfoldable pub block_name : List ℕ → Option ℕ
unfolding is_word starts_with
block_name [] = none
block_name (c ∷ s) =
    if c == b'p' || c == b'P'
    then (if boundary s then some 1 else none)
    else if c == b'h' || c == b'H'
    then heading_name s
    else none
  where
    boundary : List ℕ → Bool
    boundary [] = true
    boundary (d ∷ t) = not (is_word d)

    heading_name : List ℕ → Option ℕ
    heading_name [] = none
    heading_name (d ∷ t) = if leb b'1' d && (leb d b'6' && boundary t) then some 2 else none

-- `([\s\S]*?)<\/\1>`: the length of the shortest content in front of the closing tag.
unfoldable pub content_size : List ℕ → List ℕ → Option ℕ
unfolding starts_with_ci
content_size name [] = none
content_size name (c ∷ s) =
    let rest = content_size name s in
    let closing = codes "</" ++ (name ++ codes ">") in
    if starts_with_ci (c ∷ s) closing
    then some 0
    else elim rest [ none ↦ none | some n ↦ some (n + 1) ]

-- `/<(h[1-6]|p)\b[^>]*>([\s\S]*?)<\/\1>/i` at one place: the length, and the lower-case name and
-- the content.
unfoldable pub element : List ℕ → Option (ℕ × (List ℕ × List ℕ))
unfolding block_name content_size span not_gt to_lower_case starts_with
element [] = none
element (c ∷ s) =
    if c == b'<'
    then elim (block_name s) [
      | none ↦ none
      | some n ↦
          let name = to_lower_case (take n s) in
          let attributes = span not_gt (drop n s) in
          let inner = drop (n + attributes + 1) s in
          if starts_with (drop (n + attributes) s) (codes ">")
          then elim (content_size name inner) [
            | none ↦ none
            | some size ↦ some (1 + n + attributes + 1 + size + 3 + n, (name, take size inner))
          ]
          else none
    ]
    else none

-- The block for one match: `Number(tag[1])` is the level of a heading.
unfoldable pub html_block : List ℕ → List ℕ → RawBlock
html_block [] text = paragraph text 1
html_block (t ∷ []) text = paragraph text 1
html_block (t ∷ (d ∷ ds)) text =
    if t == b'h'
    then record { text = text; page = 1; heading = true; level = some (d - b'0') }
    else paragraph text 1

unfoldable pub blocks_of : List (Found (List ℕ × List ℕ)) → List RawBlock
unfolding strip_tags html_block
blocks_of [] = []
blocks_of (m ∷ ms) =
    let (name, content) = m.taken in
    let text = strip_tags content in
    let rest = blocks_of ms in if is_empty text then rest else html_block name text ∷ rest

unfoldable pub html_to_blocks : List ℕ → List RawBlock
unfolding match_all element blocks_of
html_to_blocks html = blocks_of (match_all element html)

word_html :
    html_to_blocks
      (codes "<H2 id=\"a\">Terms &amp; <b>Fees</b></h2><p></p><pre>x</pre><p>5 &#60; 6</p>")
    ≡ record { text = codes "Terms & Fees"; page = 1; heading = true; level = some 2 }
      ∷ paragraph (codes "5 < 6") 1
      ∷ []
unfolding html_to_blocks
word_html = refl
