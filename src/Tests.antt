-- ===== src/Tests.antt =====
-- Runs of the definitions on concrete inputs, and the theorems at such inputs.
pub mod Match
pub mod Bytes
pub mod Parser
pub mod Router
pub mod World
pub mod Forms
pub mod Rules
pub mod Arena
