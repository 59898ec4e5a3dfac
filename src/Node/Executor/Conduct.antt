-- ===== src/Node/Executor/Conduct.antt =====
-- What the verbs of `execute` (crates/barista-node-agent/src/ops.rs) write and call: a process
-- keeps whatever its verb's own writes and calls keep.
pub mod Shared
pub mod Capturing
pub mod Resuming
pub mod Branching
pub mod Verb
use Prim.Native.String.{String}
use barista_sh.Base.{ℕ, Bool, true, false, Option, none, some, ◌≡◌, ◌⊎◌}
use barista_sh.Base.Int.{ℤ}
use barista_sh.Contract.Spec.{InstanceSpec}
use barista_sh.Journal.Rows.{ForkMode}
use barista_sh.Journal.Operations.{set_op_step, set_op_froze_workload, set_op_fork_mode}
use barista_sh.Journal.Snapshots.{Db, SnapshotRow, insert_snapshot, delete_snapshot}
use barista_sh.Node.Runtime.{Call}
use barista_sh.Node.Payload.{OpPayload}
use barista_sh.Node.Executor.Steps.{Execution, target, on_journal}

-- A call of the guest of this instance, or a draw of entropy for it.
abbrev pub ToGuest : String → Call → Type 0
ToGuest id (Call.connect i) = i ≡ id
ToGuest id (Call.run_hook i _) = i ≡ id
ToGuest id (Call.run_restore_duties i _) = i ≡ id
ToGuest id (Call.health i) = i ≡ id
ToGuest id Call.entropy = Unit
ToGuest id _ = ⊥

-- The calls of the runtime and of the object store that a verb may make for an instance.
abbrev pub ToRuntime : OpPayload → String → Call → Type 0
ToRuntime (OpPayload.create spec) id (Call.create s _) = s ≡ spec
ToRuntime OpPayload.start id (Call.start i _ _) = i ≡ id
ToRuntime (OpPayload.stop grace) id (Call.stop i g) = (i ≡ id) × (g ≡ grace)
ToRuntime (OpPayload.pause _) id (Call.pause i) = i ≡ id
ToRuntime (OpPayload.resume _ _) id (Call.resume i _) = i ≡ id
ToRuntime (OpPayload.resume _ memory) id (Call.start i _ _) = (i ≡ id) × (memory ≡ false)
ToRuntime (OpPayload.create_snapshot name) id (Call.create_snapshot i n) = (i ≡ id) × (n ≡ name)
ToRuntime (OpPayload.create_snapshot _) id (Call.delete_snapshot _) = Unit
ToRuntime (OpPayload.delete_snapshot sid) id (Call.delete_snapshot s) = s ≡ sid
ToRuntime (OpPayload.destroy _) id (Call.destroy i) = i ≡ id
ToRuntime (OpPayload.destroy keep) id (Call.delete_snapshot _) = keep ≡ false
ToRuntime (OpPayload.fork f) id (Call.fork s n _ _ cow) =
    (s ≡ f.source_instance_id) × (n ≡ f.source_snapshot_id) × (cow ≡ f.require_cow)
ToRuntime (OpPayload.restore_capsule _) id (Call.fetch _) = Unit
ToRuntime (OpPayload.restore_capsule _) id (Call.restore_from_objects _ _ _) = Unit
ToRuntime _ id _ = ⊥

abbrev pub Makes : OpPayload → String → Call → Type 0
Makes p id c = ToGuest id c ⊎ ToRuntime p id c

-- The verbs that record a snapshot, and those that delete the row of one.
abbrev pub Captures : OpPayload → Type 0
Captures (OpPayload.pause _) = Unit
Captures (OpPayload.create_snapshot _) = Unit
Captures _ = ⊥

abbrev pub Deletes : OpPayload → String → Type 0
Deletes (OpPayload.delete_snapshot sid) s = s ≡ sid
Deletes (OpPayload.destroy keep) s = keep ≡ false
Deletes _ s = ⊥

-- The conditions hold of the writes and calls of an execution's verb.
pub record Permits (W : (R : Type 0) → (Db → Option R × Db) → Type 0) (C : Call → Type 0)
    (x : Execution) : Type 0 where
  pub stepped :
      (name : String) → W (Unit {0}) (λ d. (some tt, on_journal (set_op_step x.op.op_id name) d))
  pub froze : W (Unit {0}) (λ d. (some tt, on_journal (set_op_froze_workload x.op.op_id) d))
  pub measured :
      (mode : ForkMode)
      → W (Unit {0}) (λ d. (some tt, on_journal (set_op_fork_mode x.op.op_id mode) d))
  pub inserts :
      (row : SnapshotRow) (now : ℤ)
      → Captures x.payload
      → row.instance_id ≡ target x
      → W (Unit {0}) (λ d. (some tt, insert_snapshot row now d))
  pub deletes :
      (sid : String) → Deletes x.payload sid → W (Unit {0}) (λ d. (some tt, delete_snapshot sid d))
  pub calls : (c : Call) → Makes x.payload (target x) c → C c
