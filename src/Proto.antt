-- ===== src/Proto.antt =====
-- crates/aide-proto.
pub mod Framing
