-- ===== src/Journal/Tests.antt =====
-- Concrete runs of the journal of crates/barista-node-agent/src/db.rs.
use Prim.Native.String.{String}
use barista_sh.Base.{◌<◌, true, false, none, some, ◌≡◌, refl}
use barista_sh.Base.Int.{pos}
use barista_sh.Contract.{InstanceState, OperationState, ErrorReason}
use barista_sh.Machine.Operation.{op_is_in_flight, op_is_settled, op_can_transition}
use barista_sh.Contract.Spec.{InstanceSpec}
use barista_sh.Journal.Table.{find, count}
use barista_sh.Journal.Rows.{ForkMode, OperationRow, StoredOperation, Journal, of_op}
use barista_sh.Journal.Submit.{
  Request, replay_check, conflict_check, planned_state, consume_claim, insert_operation,
  write_instance, submission, submit_atomically,
}
use barista_sh.Journal.Submit.Delivered.{Promise, submit_delivers}
use barista_sh.Journal.Operations.{
  op_states_where, ops_movable_to, move_op, finish_op_canceled, Finish, succeeded, finish_operation,
  restart, has_inflight_op,
}
use barista_sh.Journal.Instances.{issue_execution_epoch}
use barista_sh.Journal.Steps.{empty_journal, submits, cancels, finishes, Reached, begins, goes_on}
use barista_sh.Journal.Invariant.{Sound}
use barista_sh.Journal.Invariant.Preserved.{Reached-Sound}
use barista_sh.Journal.Outcomes.{Advanced, SameOutcome}
use barista_sh.Journal.Advances.{op_advances}
use barista_sh.Journal.Settled.{now, next, settled_outcome_kept}
use barista_sh.Journal.Restart.{restart_settles}
use barista_sh.Journal.Epochs.{epochs_increase}
use barista_sh.Base.{[], ◌∷◌}
use barista_sh.Journal.Operations.{in_flight_ops}
use barista_sh.Journal.Credentials.{Untouched, finish_keeps_credentials}
use barista_sh.Journal.Rows.{InstanceRow, no_identity, no_lineage, of_instance}

abbrev create_op : OperationRow
create_op = record {
  op_id = "op-1";
  kind = "create";
  instance_id = "i-1";
  payload = "";
  state = OperationState.queued;
  current_step = "";
  error_reason = ErrorReason.unspecified;
  error_message = "";
  degraded = "";
  created_at_ms = pos 5;
  finished_at_ms = none;
  froze_workload = false;
  actual_fork_mode = ForkMode.unspecified;
}

abbrev bare_spec : InstanceSpec
bare_spec = record {
  instance_id = "i-1";
  template = none;
  resources = none;
  process = none;
  hooks = none;
  ttl_seconds = 0;
  ttl_action = pos 0;
  labels = [];
  egress = none;
  idle_action = none;
}

abbrev create_request : Request
create_request = record {
  op = create_op;
  idempotency_key = "k-1";
  transitional = InstanceState.creating;
  create_spec = some bare_spec;
  runtime = "fake";
  guest_token = "t";
  mint_identity = λ id. some none;
  claim = none;
  lineage = none;
  plan = λ s. none;
}

abbrev finish : Finish
finish = record {
  op_id = "op-1";
  instance_id = "i-1";
  state = InstanceState.created;
  ttl_deadline_ms = none;
  stop_reason = none;
  clear_ready = false;
  degraded = "";
  outcome = succeeded;
}

abbrev created : Journal
created = (submit_atomically create_request (pos 6) (pos 6) empty_journal).1

abbrev called_off : Journal
called_off = (finish_op_canceled "op-1" "no longer needed" (pos 7) created).1

abbrev finished : Journal
finished = (finish_operation finish (pos 8) called_off).1

created-Reached : Reached created
created-Reached = goes_on begins (submits create_request (pos 6) (pos 6))

called_off-Reached : Reached called_off
called_off-Reached = goes_on created-Reached (cancels "op-1" "no longer needed" (pos 7))

abbrev queued_op : StoredOperation
queued_op = record { op = create_op; idempotency_key = "k-1"; executor_active = true }

abbrev canceled_op : StoredOperation
canceled_op = record {
  op = record create_op {
    state = OperationState.canceled;
    error_message = "no longer needed";
    finished_at_ms = some (pos 7);
  };
  idempotency_key = "k-1";
  executor_active = true;
}

created-find : find (of_op "op-1") created.operations ≡ some queued_op
unfolding submit_atomically submission replay_check conflict_check planned_state consume_claim
    insert_operation write_instance
created-find = refl

called_off-find : find (of_op "op-1") called_off.operations ≡ some canceled_op
unfolding submit_atomically submission replay_check conflict_check planned_state consume_claim
    insert_operation write_instance finish_op_canceled move_op ops_movable_to op_states_where
    op_can_transition
called_off-find = refl

canceled_op-settled : op_is_settled canceled_op.op.state ≡ true
unfolding op_is_settled
canceled_op-settled = refl

submit_delivers_example :
    Promise create_request
      (pos 6)
      (pos 6)
      empty_journal
      (submit_atomically create_request (pos 6) (pos 6) empty_journal).0
      created
submit_delivers_example = submit_delivers create_request (pos 6) (pos 6) empty_journal

Reached-Sound_example : Sound called_off.operations
Reached-Sound_example = Reached-Sound called_off-Reached

op_advances_example : Advanced "op-1" queued_op called_off.operations
op_advances_example =
    op_advances created-Reached (cancels "op-1" "no longer needed" (pos 7)) "op-1" queued_op
      created-find

settled_outcome_kept_example :
    (s : StoredOperation) × (find (of_op "op-1") finished.operations ≡ some s)
    × SameOutcome canceled_op.op s.op
settled_outcome_kept_example =
    settled_outcome_kept called_off-Reached (next now (finishes finish (pos 8))) "op-1" canceled_op
      called_off-find canceled_op-settled

restart_settles_example :
    (count (λ r. op_is_in_flight r.op.state) (restart "restarted" (pos 9) called_off).operations
      ≡ 0)
    × ((id : String) → has_inflight_op id (restart "restarted" (pos 9) called_off) ≡ false)
restart_settles_example = restart_settles "restarted" (pos 9) called_off

epochs_increase_example :
    (0 < (issue_execution_epoch created).0)
    × ((issue_execution_epoch created).0
        < (issue_execution_epoch (issue_execution_epoch created).1).0)
epochs_increase_example = epochs_increase created (issue_execution_epoch created).1 now

-- An instance that is being destroyed, and the finalize of its destroy.
abbrev doomed : InstanceRow
doomed = record {
  instance_id = "i-1";
  spec = bare_spec;
  state = InstanceState.destroying;
  ready = false;
  runtime = "fake";
  created_at_ms = pos 1;
  updated_at_ms = pos 1;
  ttl_deadline_ms = none;
  latest_snapshot_id = "";
  guest_token = "secret";
  identity = no_identity;
  wake_at_ms = none;
  stop_requested = none;
  stop_exit_code = none;
  stop_detail = none;
  run_epoch_ms = none;
  lineage = no_lineage;
  execution_epoch = 1;
}

abbrev destroying : Journal
destroying = record {
  instances = doomed ∷ [];
  operations = queued_op ∷ [];
  next_execution_epoch = 1;
}

abbrev destroyed : Finish
destroyed = record {
  op_id = "op-1";
  instance_id = "i-1";
  state = InstanceState.destroyed;
  ttl_deadline_ms = none;
  stop_reason = none;
  clear_ready = true;
  degraded = "";
  outcome = succeeded;
}

destroyed-commits :
    (finish_operation destroyed (pos 9) destroying).0
    ≡ some (record { readiness_changed = false; outcome_recorded = true })
unfolding finish_operation in_flight_ops op_states_where op_is_in_flight
destroyed-commits = refl

finish_keeps_credentials_example :
    (s : InstanceRow) × (find
        (of_instance "i-1")
        (finish_operation destroyed (pos 9) destroying).1.instances
      ≡ some s)
    × (s.state ≡ InstanceState.destroyed)
    × Untouched doomed s
finish_keeps_credentials_example =
    finish_keeps_credentials destroyed (pos 9) destroying doomed
      (record { readiness_changed = false; outcome_recorded = true }) refl destroyed-commits
