-- ===== src/Reconcile.antt =====
-- The reconciler of the node agent (crates/barista-node-agent/src/reconcile.rs) and the recovery after
-- a crash (`recover` of ops.rs): what runs without a caller.
pub mod Vanished
pub mod Recover
pub mod Deadlines
pub mod Sweep
mod Tests
