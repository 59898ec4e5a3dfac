-- ===== src/Node.antt =====
-- The node agent's operations (crates/barista-node-agent/src/ops.rs): their submission, the
-- executors that drive a runtime, and the recovery after a crash.
pub mod Runtime
pub mod Process
pub mod Payload
pub mod Submit
pub mod Keeps
pub mod Sequential
pub mod Log
pub mod Executor
pub mod System
pub mod Sample
mod Tests
pub mod Submitted
pub mod Journaled
pub mod Launch
pub mod Refused
