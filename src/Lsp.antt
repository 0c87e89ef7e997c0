-- ===== src/Lsp.antt =====
-- crates/aide-lsp: positions, edits and symbols of ops.rs.
pub mod Position
pub mod Client
pub mod CodeActions
pub mod Documents
pub mod Edits
pub mod Pool
pub mod SafeEdit
pub mod Session
pub mod Symbols
pub mod Workspace
mod ClientTests
mod EditTests
mod Tests
