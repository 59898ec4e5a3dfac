-- ===== src/Node/Executor/Capture.antt =====
-- The verbs of `execute` (crates/barista-node-agent/src/ops.rs) that take or delete a snapshot,
-- with `record_snapshot`.
use Prim.Native.String.{String}
use barista_sh.Base.{
  Bool, true, false, not, ◌&&◌, Option, none, some, List, [], ◌++◌, if◌then◌else◌,
}
use barista_sh.Contract.{InstanceState, ErrorReason, instance_state_eq}
use barista_sh.Contract.Spec.{SnapshotKind, SnapshotTier, HookOutcome}
use barista_sh.Journal.Rows.{InstanceRow}
use barista_sh.Journal.Operations.{succeeded, failed, set_op_froze_workload}
use barista_sh.Journal.Snapshots.{SnapshotRow, get_instance, insert_snapshot, delete_snapshot}
use barista_sh.Node.Runtime.{SnapshotRef, ok, err, Call}
use barista_sh.Node.Process.{Proc, ◌>>=◌, ◌>>◌, pure, ask, query, update_db}
use barista_sh.Node.Submit.{flatten}
use barista_sh.Node.Executor.Steps.{Execution, target, Done, on_journal, step, degrade, fails_as}
use barista_sh.Node.Executor.Guest.{run_pre_snapshot_hook}

abbrev pub is_memory : SnapshotKind → Bool
is_memory SnapshotKind.memory_and_disk = true
is_memory _ = false

unfoldable pub template_of : Execution → Option InstanceRow → String
template_of x none = ""
template_of x (some r) = x.cfg.template_hash r.spec

abbrev pub snapshot_row :
    Execution → SnapshotRef → Option HookOutcome → String → String → SnapshotRow
snapshot_row x s hook name template = record {
  snapshot_id = s.snapshot_id;
  instance_id = target x;
  kind = s.kind;
  cpu_class = x.cfg.cpu_class;
  template_hash = template;
  runtime_bundle_ref = x.cfg.runtime_version;
  tier = SnapshotTier.local;
  size_bytes = s.size_bytes;
  created_at_ms = x.snapshot_now;
  pre_snapshot_hook = hook;
  name = name;
}

-- `record_snapshot`: whether the row was written
unfoldable pub record_snapshot : Execution → SnapshotRef → Option HookOutcome → String → Proc Bool
unfolding template_of
record_snapshot x s hook name = do
  row ← query (get_instance (target x))
  written ←
      update_db
        (insert_snapshot (snapshot_row x s hook name (template_of x (flatten row))) x.snapshot_now)
  pure (elim written [ none ↦ false | some _ ↦ true ])

unfoldable pub paused :
    Execution → Bool → SnapshotRef → Option HookOutcome → List String → Proc Done
unfolding record_snapshot
paused x memory s hook ds =
    if memory && not (is_memory s.kind)
    then pure (failed ErrorReason.capability_missing "memory was not preserved", ds)
    else (do
      step x "journal.snapshot"
      written ← record_snapshot x s hook ""
      lost ←
          (if written
            then pure []
            else degrade x "a snapshot was captured but could not be journaled")
      cold ←
          (if is_memory s.kind
            then pure []
            else degrade x "paused without preserving memory: resuming will be a cold boot")
      pure (succeeded, ds ++ (lost ++ cold)))

-- `OpPayload::Pause`
unfoldable pub run_pause : Execution → Bool → Proc Done
unfolding paused fails_as run_pre_snapshot_hook
run_pause x memory = do
  step x "hook.pre_snapshot"
  hook ← run_pre_snapshot_hook x
  step x "runtime.pause"
  a ← ask (Call.pause (target x))
  elim a [ ok s ↦ paused x memory s (hook.0) (hook.1) | err e ↦ fails_as e (hook.1) ]

unfoldable pub compensate : Execution → SnapshotRef → List String → Proc Done
compensate x s ds = do
  step x "compensate.delete_snapshot"
  undo ← ask (Call.delete_snapshot s.snapshot_id)
  left ← elim undo [
    | ok _ ↦ pure []
    | err _ ↦ degrade x "a snapshot was captured, not journaled, and not deleted again"
  ]
  pure (failed ErrorReason.unspecified "the snapshot could not be journaled", ds ++ left)

unfoldable pub captured :
    Execution → Option String → SnapshotRef → Option HookOutcome → List String → Proc Done
unfolding record_snapshot compensate
captured x name s hook ds = do
  step x "journal.snapshot"
  written ← record_snapshot x s hook (elim name [ none ↦ "" | some n ↦ n ])
  if written then pure (succeeded, ds) else compensate x s ds

abbrev pub froze : Execution → Bool
froze x =
    instance_state_eq x.recorded InstanceState.checkpointing
    && not x.cfg.capabilities.live_checkpoint

-- `OpPayload::CreateSnapshot`
unfoldable pub run_create_snapshot : Execution → Option String → Proc Done
unfolding captured fails_as run_pre_snapshot_hook
run_create_snapshot x name = do
  step x "hook.pre_snapshot"
  hook ← run_pre_snapshot_hook x
  (if froze x
      then (do
        update_db (on_journal (set_op_froze_workload x.op.op_id))
        step x "runtime.create_snapshot.frozen")
      else step x "runtime.create_snapshot")
  a ← ask (Call.create_snapshot (target x) name)
  elim a [ ok s ↦ captured x name s (hook.0) (hook.1) | err e ↦ fails_as e (hook.1) ]

-- `OpPayload::DeleteSnapshot`: the substrate first
unfoldable pub run_delete_snapshot : Execution → String → Proc Done
unfolding fails_as
run_delete_snapshot x sid = do
  step x "runtime.delete_snapshot"
  a ← ask (Call.delete_snapshot sid)
  elim a [
    | err e ↦ fails_as e []
    | ok _ ↦ do
      step x "journal.delete_snapshot"
      written ← update_db (delete_snapshot sid)
      elim written [
        | some _ ↦ pure (succeeded, [])
        | none ↦ do
          ds ← degrade x "a snapshot was deleted but its journal row could not be removed"
          pure (failed ErrorReason.unspecified "could not remove the journal row", ds)
      ]
  ]
