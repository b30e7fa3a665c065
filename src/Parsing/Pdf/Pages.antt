-- ===== src/Parsing/Pdf/Pages.antt =====
-- Page numbers and warnings of a parsed PDF.
use ai_support_agent_builder.Prelude.{
  ℕ, zero, suc, ◌+◌, ◌≤◌, List, [], ◌∷◌, ◌++◌, ◌≡◌, refl, false, arith, length, ltb, if_elim, min,
}
use ai_support_agent_builder.Text.{is_empty}
use ai_support_agent_builder.Parsing.Types.{
  RawBlock, FormatParseResult, returned, returned_inj, >>=-eq-returned,
}
use ai_support_agent_builder.Parsing.Txt.{paragraph}
use ai_support_agent_builder.Parsing.Pdf.{
  PdfDocument, PdfState, PdfTextItem, low_text_min_chars, max_pages, on_page, on_pages, page_text,
  parse_pages,
}

-- Each block is the text of its own page, which is not empty, and the pages rise from `lo` to
-- below `hi`.
abbrev pub Rising : PdfDocument → ℕ → List RawBlock → ℕ → Type 0
Rising doc lo [] hi = lo ≤ hi
Rising doc lo (b ∷ bs) hi =
    (lo ≤ b.page)
    × (is_empty b.text ≡ false)
    × ((items : List PdfTextItem) × (doc.page_items b.page ≡ returned items)
        × (b.text ≡ page_text items))
    × Rising doc (b.page + 1) bs hi

Rising-weaken :
    (doc : PdfDocument) (lo : ℕ) (bs : List RawBlock) (hi hi' : ℕ)
    → hi ≤ hi'
    → Rising doc lo bs hi
    → Rising doc lo bs hi'
Rising-weaken doc lo [] hi hi' h r = omega arith
Rising-weaken doc lo (b ∷ bs) hi hi' h (a, e, t, r) =
    (a, e, t, Rising-weaken doc (b.page + 1) bs hi hi' h r)

Rising-snoc :
    (doc : PdfDocument) (lo : ℕ) (bs : List RawBlock) (page : ℕ) (items : List PdfTextItem)
    → doc.page_items page ≡ returned items
    → is_empty (page_text items) ≡ false
    → Rising doc lo bs page
    → Rising doc lo (bs ++ paragraph (page_text items) page ∷ []) (page + 1)
Rising-snoc doc lo [] page items e f r = (r, f, (items, e, refl), omega arith)
Rising-snoc doc lo (b ∷ bs) page items e f (a, g, t, r) =
    (a, g, t, Rising-snoc doc (b.page + 1) bs page items e f r)

nonempty_of_long : (s : List ℕ) → ltb (length s) low_text_min_chars ≡ false → is_empty s ≡ false
nonempty_of_long [] h = ground arith
nonempty_of_long (c ∷ s) h = refl

module _ (doc : PdfDocument) where
  on_page-Rising :
      (s : PdfState) (page : ℕ) (items : List PdfTextItem)
      → doc.page_items page ≡ returned items
      → Rising doc 1 s.blocks page
      → Rising doc 1 (on_page s page (page_text items)).blocks (page + 1)
  unfolding on_page
  on_page-Rising s page items e r =
      if_elim (λ (t : PdfState). Rising doc 1 t.blocks (page + 1))
        (ltb (length (page_text items)) low_text_min_chars) _ _
        (λ _.
          if_elim (λ (t : PdfState). Rising doc 1 t.blocks (page + 1)) (is_empty (page_text items))
            _ _ (λ _. Rising-weaken doc 1 s.blocks page (page + 1) (omega arith) r)
            (λ f. Rising-snoc doc 1 s.blocks page items e f r))
        (λ long.
          Rising-snoc doc 1 s.blocks page items e (nonempty_of_long (page_text items) long) r)

  on_pages-Rising :
      (left page : ℕ) (s t : PdfState) (end : ℕ)
      → page + left ≡ end
      → on_pages doc left page s ≡ returned t
      → Rising doc 1 s.blocks page
      → Rising doc 1 t.blocks end
  unfolding on_pages
  on_pages-Rising zero page s t end e h r =
      rw (← returned_inj h) (Rising-weaken doc 1 s.blocks page end (omega arith) r)
  on_pages-Rising (suc left) page s t end e h r =
      let (items, read, next) = >>=-eq-returned (doc.page_items page) _ h in
      on_pages-Rising left (page + 1) (on_page s page (page_text items)) t end (omega arith) next
        (on_page-Rising s page items read r)

  -- If a PDF is parsed, the pages of the blocks rise strictly from 1, none lies behind the last
  -- page or behind the scan limit, and each block is the text, not empty, of its own page.
  pub parse_pages-Rising :
      (result : FormatParseResult)
      → parse_pages doc ≡ returned result
      → Rising doc 1 result.blocks (min doc.num_pages max_pages + 1)
  unfolding parse_pages
  parse_pages-Rising result h =
      let (s, scanned, e) = >>=-eq-returned (on_pages doc (min doc.num_pages max_pages) 1 _) _ h in
      rw (← returned_inj e) (
        on_pages-Rising (min doc.num_pages max_pages) 1 _ s (min doc.num_pages max_pages + 1)
          (omega arith) scanned (omega arith))
