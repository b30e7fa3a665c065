-- ===== src/Chunking.antt =====
-- api/src/ingestion/chunking: a parsed document cut into chunks that carry their offsets.
pub mod Tokenizer
pub mod Split
pub mod Chunker
