-- ===== src/Parsing.antt =====
-- api/src/ingestion/parsing: from raw bytes to one text with anchored blocks (index.ts, types.ts).
pub mod Types
pub mod Decode
pub mod Sniff
pub mod Txt
pub mod Markdown
pub mod Html
pub mod Pdf
pub mod Assemble
pub mod Document
