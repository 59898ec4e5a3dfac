-- ===== src/Lib.antt =====
-- The coordination core of Barista: what its node agent (crates/barista-node-agent) records and
-- decides, and how the nodes of a fleet (crates/barista-fleet) share session names.
--
-- Parts and how they interact. A node journals every mutation of an instance as an operation in an
-- SQLite file (db.rs) before it touches a sandbox; the two state machines (state_machine.rs) say
-- which moves of an instance and of an operation are legal, and the journal's transactions ask
-- them. A submission (`submit_claiming` of ops.rs) spawns an executor, which drives the runtime and
-- the guest and finalizes the operation. Nodes of a fleet own session names by leases, objects in a
-- shared bucket that are written only under the version that was read (lease.rs).
--
-- Files:
-- - Base: the shared names; Base/Tests, Base/Lists and Base/Int hold Boolean tests, lists over the
--   native numbers, and signed integers with the wrap-around of `i64`.
-- - Contract: the enums of the wire contract (crates/barista-proto/src/generated), and in Spec the
--   messages that the node stores or reads.
-- - Machine: crates/barista-node-agent/src/state_machine.rs. Instance and Operation are the two
--   tables, Lifecycle and Settling what they allow.
-- - Fleet: crates/barista-fleet/src/lease.rs. Record is its data, Program a program over an object
--   store as a tree of reads and conditional writes, Lease one function for each of the code's.
--   Backend states what the code relies on of the `object_store` crate and the bucket, as laws of a
--   record; History, Safe and Lease/Legal follow the writes that programs make, Cluster lets any
--   number of nodes interleave theirs one store access at a time; Cluster/Invariant,
--   Cluster/Preserved and Cluster/Fencing prove what that keeps, and Lease/Writing,
--   Lease/Renewing, Lease/Outcome and Lease/Takeover describe one program alone. Memory is a store
--   that has the laws. Base64 is the codec of crates/barista-fleet/src/desired.rs.
-- - Journal: crates/barista-node-agent/src/db.rs. Table gives SQL statements on lists of rows, Rows
--   the columns, Tx a transaction that can roll back, Deadline and Submit `submit_atomically`,
--   Operations and Instances the other methods, Snapshots the table of the same name and the whole
--   database, and Steps the journals that calls of the methods reach.
--   Submit/Accepted, Submit/Refused and Submit/Verdict follow a submission through its checks,
--   Submit/Promised states what it promises and Submit/Delivering and Submit/Delivered prove it;
--   Invariant, Outcomes, Advances, Settled, Restart, Finish, Credentials and Epochs prove what the
--   methods keep.
-- - Capsule: the tables `capsules` and `object_refs` of the same file. Registry has the methods,
--   Counting and Releasing how they move the counts, Counted and Collecting what follows.
-- - Events: the table `events` of the same file. Log has the methods, Order, Paging and Retention
--   what they keep.
-- - Policy: decisions without a store. Plan is `OpKind` and `plan_transition` of
--   crates/barista-node-agent/src/ops.rs, Admission is admission.rs
--   (whether a text parses as a ULID is an argument), Restore is restore.rs, Gate is grants.rs,
--   `resolve_ttl_action` of reconcile.rs and `ttl_deadline_ms` of ops.rs.
-- - Node: crates/barista-node-agent/src/ops.rs. Process is an `async` function as its effects in
--   order, Runtime the calls of runtime/mod.rs with their replies, Payload and Submit `OpPayload`
--   and `submit_claiming`, Executor `execute`: Executor/Guest, Capture, Resume, Branch and Verbs
--   have the verbs, Executor/Finalize the end. Keeps says what holds along every run, Sequential
--   what a run alone ends with, Log what a run does, System any number of tasks that interleave.
--   Submitted and Executor/Conduct give the writes and calls of a submission and of a verb;
--   Executor/Calls and Calling follow the calls of an executor, Waits its epoch, Ready and Settles
--   its finalize, Outcome and Concludes its end by the runtime's answers; Journaled, Launch and
--   Refused, and System/Keeping, Journaled and Pointed prove what follows. Sample is a node with one
--   submission.
-- - Reconcile: crates/barista-node-agent/src/reconcile.rs and `recover` of ops.rs. Deadlines has what
--   a tick does to one instance, Vanished and Sweep what it does to sandboxes and credentials, Recover
--   what a start does after a crash; Deadlines/Once, Vanished/Counting, Exact, Failing and Debounce,
--   Sweep/Survivors and Recover/Settling prove what follows.
-- - The Tests module of each part has concrete runs.
--
-- State and operations. A stored row is a record with the columns of its table; a method of `Db`
-- is a function of the journal that returns the journal after it, with its result where it has one
-- (`none` for an `Err`). The clock is an argument, and so are the closures that the code takes. A
-- lease operation is a program, so that other nodes' writes can fall between its read and its
-- write. A submission and an executor are processes: one transaction or one read of the database is
-- a step (the code holds a lock for it), a failed one changes nothing, and a call of the runtime,
-- of the guest or of the host is a step whose reply is any value of its type.
--
-- Bounds. `u64` and `i64` values are kept by their wrap-around where the code computes with them
-- (an epoch, a deadline). The proof that an epoch has one owner asks for fewer than 2^64 steps, so
-- that no epoch wraps. The counter of execution epochs, the event cursors and the limits of a page
-- are taken to stay below 2^63. No definition uses fuel: the loop of `acquire_with_retry` recurses on
-- its attempts, which the code bounds too. `digits` prints a `u32`, which has ten digits at most, or an `i64`, which has nineteen.
--
-- Not modelled: disk errors of SQLite (a transaction that hits one leaves the journal as it was),
-- the decoding of rows, the full texts of errors and events, the backends behind the runtime's
-- trait, the fleet's pass over the sessions of a node, gRPC and the command line, the guest agent,
-- and the TLS identity's minting, which is an argument.
pub mod Base
pub mod Contract
pub mod Machine
pub mod Fleet
pub mod Journal
pub mod Capsule
pub mod Events
pub mod Policy
pub mod Node
pub mod Reconcile
