-- ===== src/Journal/Operations.antt =====
-- The methods of `Db` (crates/barista-node-agent/src/db.rs) that move an operation, and the one that
-- finishes it together with its instance.
use Prim.Native.String.{String}
use mathlib.Core.Option
use barista_sh.Base.{
  Bool, true, false, not, ◌&&◌, ◌||◌, ◌==◌, ltb, List, [], ◌∷◌, Option, none, some, any,
  if◌then◌else◌,
}
use barista_sh.Base.Int.{ℤ}
use barista_sh.Contract.{
  InstanceState, OperationState, ErrorReason, instance_state_eq, operation_state_eq,
}
use barista_sh.Machine.Instance.{can_transition}
use barista_sh.Machine.Operation.{all_op_states, op_is_in_flight, op_can_transition}
use barista_sh.Journal.Table.{find, count, update}
use barista_sh.Journal.Rows.{
  ForkMode, OperationRow, StoredOperation, StopReason, InstanceRow, Journal, Finalized, of_instance,
  of_op,
}
use barista_sh.Journal.Submit.{active_on}

-- `op_states_where`: the state is one of the listed states that pass.
unfoldable pub op_states_where : (OperationState → Bool) → OperationState → Bool
op_states_where keep s = any (λ t. keep t && operation_state_eq t s) all_op_states

-- `in_flight_ops`
unfoldable pub in_flight_ops : OperationState → Bool
in_flight_ops = op_states_where op_is_in_flight

-- `ops_movable_to`
unfoldable pub ops_movable_to : OperationState → OperationState → Bool
ops_movable_to to = op_states_where (λ from. op_can_transition from to)

-- `Db::has_inflight_op`
unfoldable pub has_inflight_op : String → Journal → Bool
has_inflight_op id j = ltb 0 (count (active_on id) j.operations)

-- `Db::get_operation`
unfoldable pub get_operation : String → Journal → Option OperationRow
get_operation id j = Option.map (λ (r : StoredOperation). r.op) (find (of_op id) j.operations)

-- The row of this operation, in a state that passes.
abbrev pub op_in : String → (OperationState → Bool) → StoredOperation → Bool
op_in id guard r = of_op id r && guard r.op.state

abbrev pub on_ops :
    (StoredOperation → Bool) → (StoredOperation → StoredOperation) → Journal → Journal
on_ops p f j = record j { operations = update p f j.operations }

abbrev pub set_op : (OperationRow → OperationRow) → StoredOperation → StoredOperation
set_op f r = record r { op = f r.op }

abbrev pub set_step : OperationState → String → OperationRow → OperationRow
set_step state step o = record o { state = state; current_step = step }

-- `Db::set_op_step`
unfoldable pub set_op_step : String → String → Journal → Journal
set_op_step id step =
    on_ops (op_in id in_flight_ops) (set_op (set_step OperationState.running step))

-- `Db::set_op_froze_workload`
unfoldable pub set_op_froze_workload : String → Journal → Journal
set_op_froze_workload id = on_ops (of_op id) (set_op (λ o. record o { froze_workload = true }))

-- `Db::set_op_fork_mode`
unfoldable pub set_op_fork_mode : String → ForkMode → Journal → Journal
set_op_fork_mode id mode = on_ops (of_op id) (set_op (λ o. record o { actual_fork_mode = mode }))

abbrev pub failed_row : ErrorReason → String → ℤ → StoredOperation → StoredOperation
failed_row reason message now r = record r {
  op = record (r.op) {
    state = OperationState.failed;
    error_reason = reason;
    error_message = message;
    finished_at_ms = some now;
  };
  executor_active = false;
}

-- `Db::finish_op_failed`, which has no guard
unfoldable pub finish_op_failed : String → ErrorReason → String → ℤ → Journal → Journal
finish_op_failed id reason message now = on_ops (of_op id) (failed_row reason message now)

-- `Db::move_op` for an UPDATE of this operation under a guard: whether it moved, and the journal.
-- Every refusal is an error, so the text that it reads the row again for is left out.
unfoldable pub move_op :
    String
    → (OperationState → Bool)
    → (StoredOperation → StoredOperation)
    → Journal
    → Bool × Journal
move_op id guard f j = (count (op_in id guard) j.operations == 1, on_ops (op_in id guard) f j)

-- `Db::await_op_input`
unfoldable pub await_op_input : String → String → Journal → Bool × Journal
await_op_input id prompt =
    move_op id (ops_movable_to OperationState.awaiting_input)
      (set_op (set_step OperationState.awaiting_input prompt))

-- `Db::resume_op_from_input`
unfoldable pub resume_op_from_input : String → String → Journal → Bool × Journal
resume_op_from_input id step =
    move_op id (λ s. operation_state_eq s OperationState.awaiting_input)
      (set_op (set_step OperationState.running step))

abbrev pub canceled_row : String → ℤ → StoredOperation → StoredOperation
canceled_row reason now r = record r {
  op = record (r.op) {
    state = OperationState.canceled;
    error_message = reason;
    current_step = "";
    finished_at_ms = some now;
  };
  executor_active =
      if operation_state_eq r.op.state OperationState.awaiting_input
      then false
      else r.executor_active;
}

-- `Db::finish_op_canceled`
unfoldable pub finish_op_canceled : String → String → ℤ → Journal → Bool × Journal
finish_op_canceled id reason now =
    move_op id (ops_movable_to OperationState.canceled) (canceled_row reason now)

-- The ids that `Db::fail_inflight_ops` selects.
abbrev pub in_flight_ids : List StoredOperation → List String
in_flight_ids [] = []
in_flight_ids (r ∷ rs) =
    let rest = in_flight_ids rs in if in_flight_ops r.op.state then r.op.op_id ∷ rest else rest

abbrev pub fail_all : List String → String → ℤ → Journal → Journal
fail_all [] message now j = j
fail_all (id ∷ ids) message now j =
    fail_all ids message now (finish_op_failed id ErrorReason.unspecified message now j)

-- `Db::fail_inflight_ops`, the crash recovery; all its writes read one clock
unfoldable pub fail_inflight_ops : String → ℤ → Journal → Journal
fail_inflight_ops message now j = fail_all (in_flight_ids j.operations) message now j

-- What a finalize reports of the work: done, or an error and its message.
pub data Work : Type 0 where
  succeeded : Work
  failed : ErrorReason → String → Work

-- What `Db::finish_operation` takes from its caller.
pub record Finish : Type 0 where
  pub op_id : String
  pub instance_id : String
  pub state : InstanceState
  pub ttl_deadline_ms : Option ℤ
  pub stop_reason : Option StopReason
  pub clear_ready : Bool
  pub degraded : String
  pub outcome : Work

abbrev pub bind_option : {A B : Type 0} → Option A → (A → Option B) → Option B
bind_option none f = none
bind_option (some a) f = f a

-- The instance as the UPDATEs of a finalize leave it.
abbrev pub finished_instance : Finish → ℤ → InstanceRow → InstanceRow
finished_instance q now r = record r {
  state = q.state;
  updated_at_ms = now;
  stop_requested = Option.map (λ (s : StopReason). s.requested) q.stop_reason;
  stop_exit_code = bind_option q.stop_reason (λ s. s.exit_code);
  stop_detail = Option.map (λ (s : StopReason). s.detail) q.stop_reason;
  ttl_deadline_ms = q.ttl_deadline_ms;
  ready = if q.clear_ready then false else r.ready;
}

abbrev pub finished_row : Finish → ℤ → StoredOperation → StoredOperation
finished_row q now r = elim q.outcome [
  | succeeded ↦ record r {
    op = record (r.op) {
      state = OperationState.done;
      finished_at_ms = some now;
      current_step = "";
      degraded = q.degraded;
    };
    executor_active = false;
  }
  | failed reason message ↦ record r {
    op = record (r.op) {
      state = OperationState.failed;
      finished_at_ms = some now;
      error_reason = reason;
      error_message = message;
      degraded = q.degraded;
    };
    executor_active = false;
  }
]

abbrev pub inactive : StoredOperation → StoredOperation
inactive r = record r { executor_active = false }

-- whether the state reached may still be applied under an operation that was canceled
abbrev pub may_apply : Option InstanceRow → InstanceState → Bool
may_apply none state = false
may_apply (some r) state = instance_state_eq r.state state || can_transition r.state state

abbrev pub is_canceled : Option StoredOperation → Bool
is_canceled none = false
is_canceled (some r) = operation_state_eq r.op.state OperationState.canceled

-- `Db::finish_operation`; `none` is the `Err` result, whose transaction is rolled back
unfoldable pub finish_operation : Finish → ℤ → Journal → Option Finalized × Journal
finish_operation q now j =
    let was = find (of_instance q.instance_id) j.instances in
    let readiness_changed =
      q.clear_ready
      && ltb 0 (count (λ (r : InstanceRow). of_instance q.instance_id r && r.ready) j.instances) in
    let instances = update (of_instance q.instance_id) (finished_instance q now) j.instances in
    let k = record j { instances = instances } in
    let done = on_ops (op_in q.op_id in_flight_ops) (finished_row q now) k in
    if count (op_in q.op_id in_flight_ops) j.operations == 1
    then (some (record { readiness_changed = readiness_changed; outcome_recorded = true }), done)
    else if not (is_canceled (find (of_op q.op_id) done.operations))
    then (none, j)
    else if not (may_apply was q.state)
    then (none, j)
    else (
      some (record { readiness_changed = readiness_changed; outcome_recorded = false }),
      on_ops (of_op q.op_id) inactive done,
    )

abbrev pub claimed_row : StoredOperation → StoredOperation
claimed_row r = record r { executor_active = in_flight_ops r.op.state }

-- The UPDATE of `Db::open`: a settled operation has no executor in a new process.
unfoldable pub release_claims : Journal → Journal
release_claims j = record j { operations = update (λ r. true) claimed_row j.operations }

-- `Db::open` on a journal, and the first step of `ops::recover`.
unfoldable pub restart : String → ℤ → Journal → Journal
restart message now j = fail_inflight_ops message now (release_claims j)
