-- ===== src/Backend.antt =====
-- backend/: the HTTP service, its managers and their utilities.
pub mod Chunks
pub mod Noise
pub mod Json
pub mod Content
pub mod Terms
pub mod Snippets
pub mod Objects
pub mod Artifacts
pub mod Tokens
pub mod Environment
pub mod Access
pub mod Login
pub mod Jobs
pub mod Answers
pub mod Search
