-- ===== src/Events.antt =====
-- The event journal of crates/barista-node-agent/src/db.rs: cursors, retention and replay.
pub mod Log
pub mod Order
pub mod Paging
pub mod Retention
mod Tests
