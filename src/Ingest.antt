-- ===== src/Ingest.antt =====
-- api/src/worker: the ingestion of an uploaded document.
pub mod World
pub mod Rows
pub mod Store
pub mod Pipeline
