-- ===== src/Journal/Finish.antt =====
-- What `Db::finish_operation` (crates/barista-node-agent/src/db.rs) does in each of its results.
use text.Mathlib.Text.{◌==◌ as str_eq}
use barista_sh.Base.{true, false, if◌then◌else◌, List, Option, none, some, ◌≡◌, ◌≢◌, ◌⊎◌}
use barista_sh.Base.Int.{ℤ}
use barista_sh.Contract.{OperationState}
use barista_sh.Machine.Operation.{op_is_in_flight}
use barista_sh.Journal.Table.{find, update}
use barista_sh.Journal.Rows.{StoredOperation, Journal, of_instance, of_op}
use barista_sh.Journal.Operations.{in_flight_ops, op_in, Finish, finished_row}
use barista_sh.Machine.Instance.{can_transition}
use barista_sh.Journal.Rows.{InstanceRow, Finalized, StopReason}
use barista_sh.Journal.Operations.{Work, succeeded, failed}
use Prim.Native.String.{String}
use mathlib.Core.Option

-- The outcome that a row has for what the executor reports.
abbrev pub Reports : Work → StoredOperation → Type 0
Reports succeeded s = (s.op.state ≡ OperationState.done) × (s.op.current_step ≡ "")
Reports (failed why message) s =
    (s.op.state ≡ OperationState.failed)
    × (s.op.error_reason ≡ why)
    × (s.op.error_message ≡ message)

-- The row of an operation before and after its outcome is recorded.
pub record Outcome (q : Finish) (now : ℤ) (r s : StoredOperation) : Type 0 where
  pub reports : Reports q.outcome s
  pub at : s.op.finished_at_ms ≡ some now
  pub degraded : s.op.degraded ≡ q.degraded
  pub free : s.executor_active ≡ false
  pub same_id : s.op.op_id ≡ r.op.op_id
  pub same_instance : s.op.instance_id ≡ r.op.instance_id
  pub same_kind : s.op.kind ≡ r.op.kind
  pub same_payload : s.op.payload ≡ r.op.payload
  pub same_key : s.idempotency_key ≡ r.idempotency_key

-- The operation was in flight, and its outcome is what the executor reports.
abbrev pub Recorded : Finish → ℤ → Journal → Journal → Type 0
Recorded q now j k =
    (r s : StoredOperation) × (find (of_op q.op_id) j.operations ≡ some r)
    × (op_is_in_flight r.op.state ≡ true)
    × (find (of_op q.op_id) k.operations ≡ some s)
    × Outcome q now r s

-- The row of an instance before and after the state measured is written to it.
pub record Measured (q : Finish) (now : ℤ) (r s : InstanceRow) : Type 0 where
  pub state : s.state ≡ q.state
  pub deadline : s.ttl_deadline_ms ≡ q.ttl_deadline_ms
  pub at : s.updated_at_ms ≡ now
  pub ready : s.ready ≡ (if q.clear_ready then false else r.ready)
  pub stopped :
      (why : StopReason) → q.stop_reason ≡ some why → s.stop_requested ≡ some why.requested
  pub same_id : s.instance_id ≡ r.instance_id
  pub same_spec : s.spec ≡ r.spec
  pub same_epoch : s.execution_epoch ≡ r.execution_epoch
  pub same_snapshot : s.latest_snapshot_id ≡ r.latest_snapshot_id

-- Every instance keeps its row, but that of the finalize, which has what was measured.
abbrev pub Measures : Finish → ℤ → List InstanceRow → List InstanceRow → Type 0
Measures q now rows left =
    (id : String) (r : InstanceRow)
    → find (of_instance id) rows ≡ some r
    → (s : InstanceRow) × (find (of_instance id) left ≡ some s)
      × ((r.instance_id ≡ q.instance_id) × Measured q now r s
          ⊎ (r.instance_id ≢ q.instance_id) × (s ≡ r))

-- The operation was canceled and stays as it was but for its executor, and the instance moves along
-- a legal edge, or stays in its state.
abbrev pub Late : Finish → Journal → Journal → Type 0
Late q j k =
    (r : StoredOperation) × (find (of_op q.op_id) j.operations ≡ some r)
    × (r.op.state ≡ OperationState.canceled)
    × (s : StoredOperation) × (find (of_op q.op_id) k.operations ≡ some s)
    × (s.op ≡ r.op)
    × (s.executor_active ≡ false)
    × (i : InstanceRow) × (find (of_instance q.instance_id) j.instances ≡ some i)
    × ((i.state ≡ q.state) ⊎ (can_transition i.state q.state ≡ true))

abbrev pub Finishes : Finish → ℤ → Journal → Option Finalized → Journal → Type 0
Finishes q now j none k =
    (k ≡ j)
    × ((r : StoredOperation)
        → find (of_op q.op_id) j.operations ≡ some r
        → (op_is_in_flight r.op.state ≡ false)
          × (r.op.state ≡ OperationState.canceled
              → (i : InstanceRow) → find (of_instance q.instance_id) j.instances ≡ some i
              → (i.state ≢ q.state) × (can_transition i.state q.state ≡ false)))
Finishes q now j (some f) k =
    Measures q now j.instances k.instances
    × (if f.outcome_recorded then Recorded q now j k else Late q j k)

module _ (q : Finish) (now : ℤ) (j : Journal) where
  abbrev done : List StoredOperation
  done = update (op_in q.op_id in_flight_ops) (finished_row q now) j.operations
