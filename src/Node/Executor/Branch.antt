-- ===== src/Node/Executor/Branch.antt =====
-- The verbs of `execute` (crates/barista-node-agent/src/ops.rs) that make an instance from a
-- snapshot or from a capsule, with `load_capsule_objects`.
use Prim.Native.String.{String}
use barista_sh.Base.{◌==◌, Option, none, some, List, [], ◌∷◌, if◌then◌else◌}
use barista_sh.Contract.{ErrorReason}
use barista_sh.Journal.Table.{find}
use barista_sh.Journal.Operations.{succeeded, set_op_fork_mode}
use barista_sh.Journal.Snapshots.{Db}
use barista_sh.Capsule.Rows.{CapsuleObject, CapsuleRow, of_capsule}
use barista_sh.Node.Runtime.{ForkOutcome, ok, err, ObjectBytes, Call}
use barista_sh.Node.Process.{Notice, Proc, ◌>>=◌, ◌>>◌, pure, tell, ask, query, update_db}
use barista_sh.Node.Payload.{ForkRequest, CapsuleRequest}
use barista_sh.Node.Executor.Steps.{
  Execution, target, Done, on_journal, step, degrade, fails, bootstrap, with_row, fails_as,
}

unfoldable pub forked : Execution → ForkOutcome → Proc Done
forked x outcome = do
  update_db (on_journal (set_op_fork_mode x.op.op_id outcome.mode))
  ds ← (if outcome.froze_source then degrade x "the source was frozen" else pure [])
  tell (Notice.lineage_recorded (target x) x.op.op_id)
  pure (succeeded, ds)

-- `OpPayload::Fork`
unfoldable pub run_fork : Execution → ForkRequest → Proc Done
unfolding forked fails_as
run_fork x f = do
  step x "runtime.fork"
  with_row x (λ r. do
    a ← ask (Call.fork f.source_instance_id f.source_snapshot_id r.spec (bootstrap r) f.require_cow)
    elim a [ ok outcome ↦ forked x outcome | err e ↦ fails_as e [] ])

-- `get_capsule`
abbrev pub get_capsule : String → Db → Option CapsuleRow
get_capsule id d = find (of_capsule id) d.capsules

-- the result of loading a capsule's objects
pub data Loaded : Type 0 where
  loaded : List ObjectBytes → Loaded
  not_loaded : ErrorReason → String → Loaded

unfoldable pub and_object : ObjectBytes → Loaded → Loaded
and_object b (Loaded.loaded bs) = Loaded.loaded (b ∷ bs)
and_object b (Loaded.not_loaded reason message) = Loaded.not_loaded reason message

unfoldable pub fetch_all : List CapsuleObject → Proc Loaded
unfolding and_object
fetch_all [] = pure (Loaded.loaded [])
fetch_all (o ∷ os) = do
  a ← ask (Call.fetch o.digest)
  let rest = fetch_all os
  elim a [
    | err _ ↦ pure (Loaded.not_loaded ErrorReason.capsule_verification_failed "not verified")
    | ok none ↦ pure (Loaded.not_loaded ErrorReason.capsule_verification_failed "not stored")
    | ok (some b) ↦
        if b.length == o.length
        then (do more ← rest; pure (and_object b more))
        else pure (Loaded.not_loaded ErrorReason.capsule_verification_failed "wrong length")
  ]

-- `load_capsule_objects`
unfoldable pub load_capsule_objects : String → Proc Loaded
unfolding fetch_all
load_capsule_objects id = do
  row ← query (get_capsule id)
  elim row [
    | none ↦ pure (Loaded.not_loaded ErrorReason.unspecified "reading the capsule failed")
    | some none ↦ pure (Loaded.not_loaded ErrorReason.capsule_incompatible "no longer registered")
    | some (some c) ↦ fetch_all c.manifest.objects
  ]

unfoldable pub restored : Execution → List ObjectBytes → Proc Done
unfolding fails_as
restored x objects = do
  step x "runtime.restore_from_objects"
  with_row x (λ r. do
    a ← ask (Call.restore_from_objects objects r.spec (bootstrap r))
    elim a [
      | ok _ ↦ do tell (Notice.lineage_recorded (target x) x.op.op_id); pure (succeeded, [])
      | err e ↦ fails_as e []
    ])

-- `OpPayload::RestoreCapsule`
unfoldable pub run_restore_capsule : Execution → CapsuleRequest → Proc Done
unfolding load_capsule_objects restored
run_restore_capsule x c = do
  step x "capsule.read_objects"
  objects ← load_capsule_objects c.capsule_id
  elim objects [
    | Loaded.not_loaded reason message ↦ fails reason message
    | Loaded.loaded bs ↦ restored x bs
  ]
