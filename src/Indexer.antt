-- ===== src/Indexer.antt =====
-- crates/aide-mcp/src/indexer: the persistent store of commits and the queue of the worker.
pub mod State
pub mod Store
pub mod Recovery
pub mod Queue
mod Tests
