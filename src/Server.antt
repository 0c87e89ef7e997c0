-- ===== src/Server.antt =====
-- crates/aide-mcp/src/server.rs: what the tools of the server share.
pub mod Annotate
pub mod SafeDelete
pub mod ScipCache
pub mod ScipQueries
mod Tests
