-- ===== src/Parsing/Pdf.antt =====
-- api/src/ingestion/parsing/pdf.ts and docx.ts. The readers (pdfjs, mammoth) are parameters.
pub mod Pages
use ai_support_agent_builder.Prelude.{
  ℕ, zero, suc, ◌+◌, ◌-◌, List, [], ◌∷◌, ◌++◌, Bool, true, false, ◌&&◌, Option, none, some, ltb,
  ◌==◌, if◌then◌else◌, map, length, min, ◌≡◌, refl,
}
use ai_support_agent_builder.Text.{codes, is_empty, trim, collapse, is_blank, join, decimal}
use ai_support_agent_builder.Parsing.Types.{
  RawBlock, FormatParseResult, Parsed, returned, thrown, Thrown, ◌>>=◌,
}
use ai_support_agent_builder.Parsing.Txt.{paragraph, drop_empty, warn_if_empty}
use ai_support_agent_builder.Parsing.Html.{html_to_blocks}

abbrev pub low_text_min_chars : ℕ
low_text_min_chars = 10

abbrev pub max_pages : ℕ
max_pages = 2000

-- An item of a page: it may have no `str` key (marked content), or an undefined one.
pub data PdfTextItem : Type 0 where
  marked : PdfTextItem
  text_item : Option (List ℕ) → Bool → PdfTextItem

-- What pdfjs gives: the number of pages, and the items of a page or its error.
pub record PdfDocument : Type 0 where
  pub num_pages : ℕ
  pub page_items : ℕ → Parsed (List PdfTextItem)

or_empty : Option (List ℕ) → List ℕ
or_empty none = []
or_empty (some s) = s

-- The loop over the items, and the last line behind it.
unfoldable pub lines_from : List ℕ → List PdfTextItem → List (List ℕ)
unfolding or_empty
lines_from line [] = if is_empty line then [] else line ∷ []
lines_from line (marked ∷ items) = lines_from line items
lines_from line (text_item str has_eol ∷ items) =
    let longer = line ++ or_empty str in
    let next = lines_from [] items in
    let same = lines_from longer items in if has_eol then longer ∷ next else same

unfoldable pub page_text : List PdfTextItem → List ℕ
unfolding lines_from drop_empty join trim collapse is_blank
page_text items =
    trim (join (10 ∷ []) (drop_empty (map (λ l. trim (collapse is_blank l)) (lines_from [] items))))

-- The variables of the loop over the pages.
pub record PdfState : Type 0 where
  pub blocks : List RawBlock
  pub warnings : List (List ℕ)
  pub low_text_pages : ℕ

unfoldable pub low_text_warning : ℕ → List ℕ
unfolding decimal
low_text_warning page = codes "page " ++ (decimal page ++ codes ": low text (possibly scanned)")

-- One round: the text of page `page` is `text`.
unfoldable pub on_page : PdfState → ℕ → List ℕ → PdfState
unfolding low_text_warning
on_page s page text =
    let flagged = record s {
      low_text_pages = s.low_text_pages + 1;
      warnings = s.warnings ++ low_text_warning page ∷ [];
    } in
    if ltb (length text) low_text_min_chars
    then (if is_empty text
        then flagged
        else record flagged { blocks = flagged.blocks ++ paragraph text page ∷ [] })
    else record s { blocks = s.blocks ++ paragraph text page ∷ [] }

-- `for (let page = …; page <= pagesToScan; page++)`, with the rounds that are left.
unfoldable pub on_pages : PdfDocument → ℕ → ℕ → PdfState → Parsed PdfState
unfolding on_page page_text
on_pages doc zero page s = returned s
on_pages doc (suc left) page s = do
  items ← doc.page_items page
  on_pages doc left (page + 1) (on_page s page (page_text items))

unfoldable pub too_many_pages : ℕ → List (List ℕ)
unfolding decimal
too_many_pages n =
    if ltb max_pages n
    then (codes "document has "
        ++ (decimal n
            ++ (codes " pages; only the first " ++ (decimal max_pages ++ codes " were parsed"))))
      ∷ []
    else []

-- The warning behind the loop.
unfoldable pub image_only : ℕ → ℕ → List (List ℕ)
image_only pages low =
    if ltb 0 pages && low == pages
    then codes "all pages are low-text — document may be scanned/image-only" ∷ []
    else []

-- `parsePdf` of an opened document. `destroy` in the `finally` frees the reader only.
unfoldable pub parse_pages : PdfDocument → Parsed FormatParseResult
unfolding on_pages too_many_pages image_only
parse_pages doc =
    let pages = min doc.num_pages max_pages in
    do
      s ←
          on_pages doc pages 1
            (record { blocks = []; warnings = too_many_pages doc.num_pages; low_text_pages = 0 })
      returned (record {
        blocks = s.blocks;
        page_count = doc.num_pages;
        warnings = s.warnings ++ image_only pages s.low_text_pages;
      })

-- The two third-party readers.
pub record Readers : Type 0 where
  pub open_pdf : List ℕ → Parsed PdfDocument
  pub docx_html : List ℕ → Parsed (List ℕ)

module _ (readers : Readers) where
  unfoldable pub parse_pdf : List ℕ → Parsed FormatParseResult
  unfolding parse_pages
  parse_pdf bytes = do doc ← readers.open_pdf bytes; parse_pages doc

  unfoldable pub parse_docx : List ℕ → Parsed FormatParseResult
  unfolding html_to_blocks
  parse_docx bytes = do
    html ← readers.docx_html bytes
    let blocks = html_to_blocks html
    returned (record {
      blocks = blocks;
      page_count = 1;
      warnings = warn_if_empty (codes "no extractable text") blocks;
    })
