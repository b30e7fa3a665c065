-- ===== src/Chat/Sources.antt =====
-- api/src/chat/prompt-assembly.ts: retrieved chunks become numbered sources.
pub mod Header
pub mod Fence
pub mod Order
pub mod Assemble
