-- ===== src/Lang.antt =====
-- crates/aide-lang: the language plugins.
pub mod Paths
pub mod Classify
pub mod Diagnostics
pub mod TextDiag
mod Tests
