-- ===== src/Reconcile/Recover.antt =====
-- `recover` of crates/barista-node-agent/src/ops.rs: what a node does to its journal and its sandboxes
-- when it starts after a crash.
pub mod Settling
use Prim.Native.String.{String}
use barista_sh.Base.{Bool, true, false, not, Option, none, some, List, [], ◌∷◌, if◌then◌else◌}
use barista_sh.Base.Int.{ℤ}
use barista_sh.Contract.{InstanceState}
use barista_sh.Machine.Instance.{is_transitional, is_terminal}
use barista_sh.Journal.Rows.{OperationRow, StoredOperation, InstanceRow}
use barista_sh.Journal.Operations.{in_flight_ops, fail_inflight_ops, failed_row}
use barista_sh.Journal.Instances.{set_instance_state}
use barista_sh.Journal.Snapshots.{Db}
use barista_sh.Node.Runtime.{ok, err, Call}
use barista_sh.Node.Process.{Notice, Proc, ◌>>=◌, ◌>>◌, pure, tell, ask, query, update_db, transact}
use barista_sh.Node.Executor.Steps.{on_journal}
use barista_sh.Reconcile.Vanished.{contains}

-- the operations that `Db::fail_inflight_ops` fails, and the journal after it
abbrev pub in_flight : List StoredOperation → List OperationRow
in_flight [] = []
in_flight (r ∷ rs) =
    let rest = in_flight rs in if in_flight_ops r.op.state then r.op ∷ rest else rest

abbrev pub fail_db : String → ℤ → Db → Option (List OperationRow) × Db
fail_db message now d =
    (some (in_flight d.journal.operations), on_journal (fail_inflight_ops message now) d)

-- `Db::transitional_instances`
abbrev pub transitional_instances : List InstanceRow → List InstanceRow
transitional_instances [] = []
transitional_instances (r ∷ rs) =
    let rest = transitional_instances rs in if is_transitional r.state then r ∷ rest else rest

-- the ids of the instances whose state is not terminal
abbrev pub live_ids : List InstanceRow → List String
live_ids [] = []
live_ids (r ∷ rs) =
    let rest = live_ids rs in if is_terminal r.state then rest else r.instance_id ∷ rest

unfoldable pub report_each : List OperationRow → Proc (Unit {0})
report_each [] = pure tt
report_each (o ∷ os) = do
  tell (Notice.op_progress o.instance_id o.op_id "failed by crash recovery")
  report_each os

-- a state is recorded and announced; `false` where the write fails, which ends the recovery
unfoldable pub resolved_to : String → InstanceState → ℤ → Proc Bool
resolved_to id state now = do
  wrote ← update_db (on_journal (set_instance_state id state now))
  elim wrote [
    | none ↦ pure false
    | some _ ↦ do tell (Notice.state_changed id "" state none); pure true
  ]

unfoldable pub resolve_stopping : String → ℤ → Proc Bool
unfolding resolved_to
resolve_stopping id now = do
  a ← ask (Call.stop id 0)
  elim a [
    | ok _ ↦ resolved_to id InstanceState.stopped now
    | err _ ↦ do
      tell (Notice.degradation id "" "crash recovery could not stop the sandbox")
      resolved_to id InstanceState.failed now
  ]

unfoldable pub resolve_checkpointing : String → ℤ → Proc Bool
unfolding resolved_to
resolve_checkpointing id now = do
  wrote ← resolved_to id InstanceState.running now
  (if wrote
      then (do
        tell (Notice.degradation id "" "the node restarted while a snapshot was being captured")
        pure true)
      else pure false)

unfoldable pub reaped_to : String → InstanceState → ℤ → Proc Bool
unfolding resolved_to
reaped_to id state now = do ask (Call.remove_orphan id); resolved_to id state now

-- the arms of step 2
unfoldable pub resolve : String → InstanceState → ℤ → Proc Bool
unfolding resolve_stopping resolve_checkpointing reaped_to
resolve id InstanceState.stopping now = resolve_stopping id now
resolve id InstanceState.checkpointing now = resolve_checkpointing id now
resolve id InstanceState.destroying now = reaped_to id InstanceState.destroyed now
resolve id _ now = reaped_to id InstanceState.failed now

unfoldable pub resolve_each : ℤ → List InstanceRow → Proc Bool
unfolding resolve
resolve_each now [] = pure true
resolve_each now (r ∷ rs) = do
  done ← resolve r.instance_id r.state now
  (if done then resolve_each now rs else pure false)

unfoldable pub remove_unknown : List String → List String → Proc (Unit {0})
remove_unknown known [] = pure tt
remove_unknown known (id ∷ ids) =
    let rest = remove_unknown known ids in
    if contains id known then rest else (do ask (Call.remove_orphan id); rest)

-- step 3
unfoldable pub sweep_orphans : Proc Bool
unfolding remove_unknown
sweep_orphans = do
  known ← query (λ d. live_ids d.journal.instances)
  elim known [
    | none ↦ pure false
    | some ids ↦ do
      labeled ← ask Call.list_labeled
      elim labeled [
        | err _ ↦ do
          tell (Notice.degradation "" "" "the zero-orphan sweep could not enumerate the substrate")
          pure true
        | ok there ↦ do remove_unknown ids there; pure true
      ]
  ]

-- steps 2 and 3
unfoldable pub resolve_and_sweep : ℤ → Proc Bool
unfolding resolve_each sweep_orphans
resolve_and_sweep now = do
  rows ← query (λ d. transitional_instances d.journal.instances)
  elim rows [
    | none ↦ pure false
    | some stuck ↦ do
      resolved ← resolve_each now stuck
      (if resolved then sweep_orphans else pure false)
  ]

-- `recover`: whether it came to its end
unfoldable pub recover : String → ℤ → Proc Bool
unfolding report_each resolve_and_sweep
recover message now = do
  failed ← transact (fail_db message now)
  elim failed [ none ↦ pure false | some ops ↦ do report_each ops; resolve_and_sweep now ]
