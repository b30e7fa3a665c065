-- ===== src/Chat.antt =====
-- api/src/chat and api/src/routes/chat.ts: from retrieved chunks to a cited answer.
pub mod Refusal
pub mod Sources
pub mod Citations
pub mod Grounding
pub mod Generation
pub mod Claude
pub mod Route
