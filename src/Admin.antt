-- ===== src/Admin.antt =====
-- The admin application: its libraries, its route handlers and the state of its pages.
pub mod Sse
pub mod Forms
pub mod Settings
pub mod Documents
pub mod Bff
pub mod Paths
pub mod Playground
