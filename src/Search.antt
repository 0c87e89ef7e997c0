-- ===== src/Search.antt =====
-- crates/aide-search.
pub mod Grep
pub mod Ls
