-- ===== src/Node/Executor/Verbs.antt =====
-- The other verbs of `execute` (crates/barista-node-agent/src/ops.rs), with `forget_snapshots`,
-- and the choice of the verb by the payload.
use Prim.Native.String.{String}
use barista_sh.Base.{ℕ, Bool, Option, none, some, List, [], ◌∷◌, ◌++◌, if◌then◌else◌}
use barista_sh.Contract.Spec.{InstanceSpec}
use barista_sh.Journal.Operations.{succeeded}
use barista_sh.Journal.Snapshots.{SnapshotRow, delete_snapshot, list_snapshots}
use barista_sh.Node.Runtime.{ok, err, Call}
use barista_sh.Node.Process.{Proc, ◌>>=◌, ◌>>◌, pure, ask, query, update_db}
use barista_sh.Node.Payload.{OpPayload}
use barista_sh.Node.Executor.Steps.{
  Execution, target, Done, step, degrade, ends, bootstrap, with_row, fails_as,
}
use barista_sh.Node.Executor.Capture.{run_pause, run_create_snapshot, run_delete_snapshot}
use barista_sh.Node.Executor.Resume.{run_resume}
use barista_sh.Node.Executor.Branch.{run_fork, run_restore_capsule}

-- `OpPayload::Create`
unfoldable pub run_create : Execution → InstanceSpec → Proc Done
run_create x spec = do
  step x "runtime.create"
  with_row x (λ r. do a ← ask (Call.create spec (bootstrap r)); ends a)

-- `OpPayload::Start`
unfoldable pub run_start : Execution → Proc Done
run_start x = do
  step x "runtime.start"
  with_row x (λ r. do a ← ask (Call.start (target x) r.spec (bootstrap r)); ends a)

-- `OpPayload::Stop`
unfoldable pub run_stop : Execution → ℕ → Proc Done
run_stop x grace = do step x "runtime.stop"; a ← ask (Call.stop (target x) grace); ends a

unfoldable pub forget_each : Execution → List SnapshotRow → Proc (List String)
forget_each x [] = pure []
forget_each x (s ∷ rest) = do
  a ← ask (Call.delete_snapshot s.snapshot_id)
  ds ← elim a [
    | err _ ↦ degrade x "a snapshot outlived the instance it belonged to"
    | ok _ ↦ do
      written ← update_db (delete_snapshot s.snapshot_id)
      elim written [
        | some _ ↦ pure []
        | none ↦ degrade x "a snapshot's journal row could not be removed"
      ]
  ]
  more ← forget_each x rest
  pure (ds ++ more)

-- `forget_snapshots`
unfoldable pub forget_snapshots : Execution → Proc (List String)
unfolding forget_each
forget_snapshots x = do
  listed ← query (list_snapshots (target x))
  elim listed [
    | none ↦ degrade x "this instance's snapshots could not be listed"
    | some snapshots ↦ forget_each x snapshots
  ]

-- `OpPayload::Destroy`
unfoldable pub run_destroy : Execution → Bool → Proc Done
unfolding forget_snapshots fails_as
run_destroy x keep = do
  step x "runtime.destroy"
  a ← ask (Call.destroy (target x))
  elim a [
    | err e ↦ fails_as e []
    | ok _ ↦
        if keep
        then pure (succeeded, [])
        else (do step x "snapshots.forget"; ds ← forget_snapshots x; pure (succeeded, ds))
  ]

-- the body of `execute`, by payload
unfoldable pub run_verb : Execution → Option ℕ → Proc Done
unfolding run_create run_start run_stop run_pause run_resume run_create_snapshot run_delete_snapshot
    run_destroy run_fork run_restore_capsule
run_verb x epoch = elim x.payload [
  | OpPayload.create spec ↦ run_create x spec
  | OpPayload.start ↦ run_start x
  | OpPayload.stop grace ↦ run_stop x grace
  | OpPayload.pause memory ↦ run_pause x memory
  | OpPayload.resume sid memory ↦ run_resume x epoch sid memory
  | OpPayload.create_snapshot name ↦ run_create_snapshot x name
  | OpPayload.delete_snapshot sid ↦ run_delete_snapshot x sid
  | OpPayload.destroy keep ↦ run_destroy x keep
  | OpPayload.fork f ↦ run_fork x f
  | OpPayload.restore_capsule c ↦ run_restore_capsule x c
]
