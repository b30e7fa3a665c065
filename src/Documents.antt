-- ===== src/Documents.antt =====
-- api/src/documents and api/src/routes/documents.ts: the documents of a tenant.
pub mod SourceType
pub mod Status
pub mod Progress
pub mod Events
pub mod Routes
pub mod Upload
pub mod Removal
