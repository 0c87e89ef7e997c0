-- ===== src/Exec.antt =====
-- crates/aide-mcp/src/exec.rs.
pub mod Capped
