-- ===== src/Parsing/Document.antt =====
-- `parseDocument` of api/src/ingestion/parsing/index.ts.
use ai_support_agent_builder.Prelude.{
  ℕ, List, ◌++◌, ◌≡◌, sym, true, if◌then◌else◌, length, Bool-cases, inl, inr,
}
use ai_support_agent_builder.Text.{codes}
use ai_support_agent_builder.Parsing.Types.{
  SourceType, pdf, docx, md, txt, FormatParseResult, ParsedDocument, Parsed, returned, thrown,
  parse_error, ◌>>=◌, returned_inj, >>=-eq-returned,
}
use ai_support_agent_builder.Parsing.Sniff.{content_matches_type}
use ai_support_agent_builder.Parsing.Txt.{parse_txt}
use ai_support_agent_builder.Parsing.Markdown.{parse_markdown}
use ai_support_agent_builder.Parsing.Pdf.{Readers, parse_pdf, parse_docx}
use ai_support_agent_builder.Parsing.Assemble.{assemble}
use ai_support_agent_builder.Parsing.Assemble.Anchors.{Laid, assemble-Laid}

-- `${sourceType}` in a message.
unfoldable pub type_name : SourceType → List ℕ
type_name pdf = codes "PDF"
type_name docx = codes "DOCX"
type_name md = codes "MD"
type_name txt = codes "TXT"

module _ (readers : Readers) where
  -- The `switch`.
  unfoldable pub parse_format : SourceType → List ℕ → Parsed FormatParseResult
  unfolding parse_txt parse_markdown parse_docx parse_pdf
  parse_format txt bytes = parse_txt bytes
  parse_format md bytes = parse_markdown bytes
  parse_format docx bytes = parse_docx readers bytes
  parse_format pdf bytes = parse_pdf readers bytes

  unfoldable pub parse_document : SourceType → List ℕ → Parsed ParsedDocument
  unfolding type_name
  parse_document source_type bytes =
      if content_matches_type source_type bytes
      then (do result ← parse_format source_type bytes; returned (assemble result))
      else thrown
          (parse_error (codes "content does not match declared type: " ++ type_name source_type))

  -- A parsed document comes from content of its declared type, and its blocks fill its text, each
  -- at its offsets and a blank line apart, whatever the format.
  pub parse_document-Laid :
      (source_type : SourceType) (bytes : List ℕ) (doc : ParsedDocument)
      → parse_document source_type bytes ≡ returned doc
      → (content_matches_type source_type bytes ≡ true)
        × Laid doc.text 0 doc.blocks (length doc.text)
        × ((result : FormatParseResult) × (parse_format source_type bytes ≡ returned result)
            × (doc ≡ assemble result))
  unfolding parse_document
  parse_document-Laid source_type bytes doc h =
      elim (Bool-cases (content_matches_type source_type bytes)) [
        | inl fits ↦
            let e = rw fits at h in
            let (result, parsed, same) = >>=-eq-returned (parse_format source_type bytes) _ e in
            (
              fits,
              rw (← returned_inj same) (assemble-Laid result),
              (result, parsed, sym (returned_inj same)),
            )
        | inr differs ↦ let e = rw differs at h in cc
      ]
