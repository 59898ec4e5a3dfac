-- ===== src/Capsule.antt =====
-- Capsules and the objects that they share: the journal side of content-addressed storage
-- (crates/barista-node-agent/src/db.rs).
pub mod Rows
pub mod Registry
pub mod Counting
pub mod Releasing
pub mod Counted
pub mod Collecting
mod Tests
