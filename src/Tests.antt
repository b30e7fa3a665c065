-- ===== src/Tests.antt =====
-- The theorems at concrete inputs, one module for each part of the program.
pub mod Data
pub mod Ingestion
pub mod Answers
pub mod Jobs
pub mod Service
pub mod Queries
pub mod Tokens
pub mod Browser
pub mod Management
pub mod Startup
pub mod Objects
