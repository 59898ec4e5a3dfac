-- ===== src/Fleet.antt =====
-- The fleet crate (crates/barista-fleet/src): session leases in an object-store bucket, and what
-- a set of nodes that share the bucket can rely on.
pub mod Record
pub mod Program
pub mod Lease
pub mod Backend
pub mod History
pub mod Safe
pub mod Cluster
pub mod Base64
mod Memory
mod Tests
