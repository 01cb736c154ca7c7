-- ===== src/Tests.antt =====
-- Runs of the definitions at concrete inputs, and the theorems at inputs that meet their hypotheses.
pub mod Limits
pub mod Gate
pub mod Chunks
pub mod Worker
pub mod Keys
pub mod Scope
pub mod Search
pub mod Manager
pub mod Tokens
pub mod Store
pub mod Snippets
pub mod Intake
pub mod Access
pub mod Rerankers
pub mod Rows
pub mod Questions
