-- ===== src/Journal.antt =====
-- The node's journal (crates/barista-node-agent/src/db.rs): the tables of instances and
-- operations, and the transactions that move both.
pub mod Table
pub mod Rows
pub mod Tx
pub mod Deadline
pub mod Submit
pub mod Operations
pub mod Instances
pub mod Snapshots
pub mod Steps
pub mod Invariant
pub mod Outcomes
pub mod Advances
pub mod Settled
pub mod Restart
pub mod Finish
pub mod Credentials
pub mod Epochs
mod Tests
