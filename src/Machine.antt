-- ===== src/Machine.antt =====
-- The two state machines of crates/barista-node-agent/src/state_machine.rs: an instance's
-- lifecycle, and an operation's. Each has one table, and the predicates that the node asks.
pub mod Instance
pub mod Operation
pub mod Lifecycle
pub mod Settling
mod Tests
