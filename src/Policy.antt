-- ===== src/Policy.antt =====
-- The node agent's decisions that touch no store: which transition an operation plans, whether a
-- spec is admitted, whether a snapshot or a capsule is restored, whether a grant is valid, and what
-- an expired lease does.
pub mod Plan
pub mod Admission
pub mod Restore
pub mod Gate
mod Tests
