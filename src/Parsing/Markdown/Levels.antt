-- ===== src/Parsing/Markdown/Levels.antt =====
-- What the Markdown structurer makes a heading.
use ai_support_agent_builder.Prelude.{
  ℕ, ◌≤◌, List, [], ◌∷◌, ◌++◌, ◌≡◌, refl, Bool, true, false, not, ◌&&◌, Option, none, some, arith,
  if◌then◌else◌, if_elim, inl, inr, ◌⊎◌,
}
use ai_support_agent_builder.Text.{
  codes, is_empty, is_blank_text, join, collapse, is_blank, trim, normalize_newlines,
}
use ai_support_agent_builder.Parsing.Types.{RawBlock}
use ai_support_agent_builder.Parsing.Txt.{paragraph}
use ai_support_agent_builder.Parsing.Markdown.{
  MarkdownState, is_fence, atx_heading, flush, push_line, push_heading, on_text_line, on_line,
  on_lines, markdown_blocks, split_lines,
}

-- A heading has a level from 1 to 6, and a paragraph has a text and no level.
abbrev pub IsStructured : RawBlock → Type 0
IsStructured b =
    ((b.heading ≡ true) × ((level : ℕ) × (b.level ≡ some level) × (1 ≤ level) × (level ≤ 6)))
    ⊎ ((b.heading ≡ false) × (b.level ≡ none) × (is_empty b.text ≡ false))

abbrev pub AllStructured : List RawBlock → Type 0
AllStructured [] = Unit
AllStructured (b ∷ bs) = IsStructured b × (b.page ≡ 1) × AllStructured bs

AllStructured-snoc :
    (bs : List RawBlock) (b : RawBlock)
    → AllStructured bs
    → IsStructured b
    → b.page ≡ 1
    → AllStructured (bs ++ b ∷ [])
AllStructured-snoc [] b _ s p = (s, p, tt)
AllStructured-snoc (c ∷ bs) b (t, q, h) s p = (t, q, AllStructured-snoc bs b h s p)

atx_heading-level :
    (line : List ℕ) (level : ℕ) (text : List ℕ)
    → atx_heading line ≡ some (level, text)
    → (1 ≤ level) × (level ≤ 6)
unfolding atx_heading
atx_heading-level line level text h = ground arith

flush-AllStructured : (s : MarkdownState) → AllStructured s.blocks → AllStructured (flush s).blocks
unfolding flush
flush-AllStructured s h =
    let text = trim (collapse is_blank (join (codes " ") s.buffer)) in
    if_elim AllStructured (is_empty text) s.blocks (s.blocks ++ paragraph text 1 ∷ []) (λ _. h)
      (λ full. AllStructured-snoc s.blocks (paragraph text 1) h (inr (refl, refl, full)) refl)

push_heading-AllStructured :
    (s : MarkdownState) (level : ℕ) (text : List ℕ)
    → (1 ≤ level) × (level ≤ 6)
    → AllStructured s.blocks
    → AllStructured (push_heading s (level, text)).blocks
unfolding push_heading
push_heading-AllStructured s level text (lo, hi) h =
    AllStructured-snoc (flush s).blocks _ (flush-AllStructured s h)
      (inl (refl, (level, refl, lo, hi))) refl

on_text_line-AllStructured :
    (s : MarkdownState) (line : List ℕ) (fenced : Bool) (found : Option (ℕ × List ℕ))
    → (if fenced then none else atx_heading line) ≡ found
    → AllStructured s.blocks
    → AllStructured (on_text_line s line found).blocks
unfolding on_text_line push_line
on_text_line-AllStructured s line true (some heading) e h = cc
on_text_line-AllStructured s line false (some (level, text)) e h =
    push_heading-AllStructured s level text (atx_heading-level line level text e) h
on_text_line-AllStructured s line fenced none e h =
    if_elim (λ (t : MarkdownState). AllStructured t.blocks) (not s.in_fence && is_blank_text line)
      (flush s) (push_line s line) (λ _. flush-AllStructured s h) (λ _. h)

on_line-AllStructured :
    (s : MarkdownState) (line : List ℕ)
    → AllStructured s.blocks
    → AllStructured (on_line s line).blocks
unfolding on_line push_line
on_line-AllStructured s line h =
    if_elim (λ (t : MarkdownState). AllStructured t.blocks) (is_fence line) _ _ (λ _. h)
      (λ _.
        on_text_line-AllStructured s line s.in_fence (if s.in_fence then none else atx_heading line)
          refl h)

on_lines-AllStructured :
    (s : MarkdownState) (lines : List (List ℕ))
    → AllStructured s.blocks
    → AllStructured (on_lines s lines).blocks
unfolding on_lines
on_lines-AllStructured s [] h = h
on_lines-AllStructured s (line ∷ lines) h =
    on_lines-AllStructured (on_line s line) lines (on_line-AllStructured s line h)

-- Whatever the text, every Markdown block stands on page 1 and is either a heading of a level from
-- 1 to 6, or a paragraph with a text that is not empty and without a level.
pub markdown_blocks-AllStructured : (text : List ℕ) → AllStructured (markdown_blocks text)
unfolding markdown_blocks
markdown_blocks-AllStructured text =
    let start : MarkdownState = record { blocks = []; buffer = []; in_fence = false } in
    let lines = split_lines [] (normalize_newlines text) in
    flush-AllStructured (on_lines start lines) (on_lines-AllStructured start lines (tt {0}))
