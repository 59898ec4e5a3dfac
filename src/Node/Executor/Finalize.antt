-- ===== src/Node/Executor/Finalize.antt =====
-- The end of `execute` (crates/barista-node-agent/src/ops.rs): where the operation and its instance
-- land, with `stop_reason` and the compensation.
use Prim.Native.String.{String}
use barista_sh.Base.{
  ℕ, Bool, true, false, not, ltb, Option, none, some, List, [], ◌++◌, if◌then◌else◌,
}
use barista_sh.Base.Int.{ℤ}
use barista_sh.Contract.{InstanceState, ErrorReason, instance_state_eq}
use barista_sh.Journal.Rows.{StopReason, InstanceRow}
use barista_sh.Journal.Operations.{Work, succeeded, failed, Finish, finish_operation}
use barista_sh.Journal.Rows.{Finalized}
use barista_sh.Journal.Snapshots.{Db, get_instance}
use barista_sh.Policy.Plan.{OpKind, touches_instance_state, states}
use barista_sh.Policy.Gate.{ttl_deadline_ms}
use barista_sh.Node.Runtime.{StopStatus, Answer, ok, err, Call}
use barista_sh.Node.Process.{Notice, Proc, ◌>>=◌, ◌>>◌, pure, tell, ask, query, transact}
use barista_sh.Node.Submit.{flatten}
use barista_sh.Node.Executor.Steps.{Execution, target, Done, step, degrade, joined}

-- an operation that moved the instance ends at its kind's final state, another where it began
abbrev pub success_state : Execution → InstanceState
success_state x =
    if instance_state_eq x.recorded (states x.kind).0 then (states x.kind).1 else x.recorded

-- a failed snapshot verb says nothing about the instance
abbrev pub settled_state : Execution → Work → InstanceState
settled_state x succeeded = success_state x
settled_state x (failed _ _) =
    if touches_instance_state x.kind then InstanceState.failed else success_state x

abbrev pub deadline_of : ℤ → Option InstanceRow → Option ℤ
deadline_of now none = none
deadline_of now (some r) =
    if ltb 0 r.spec.ttl_seconds then some (ttl_deadline_ms r.spec.ttl_seconds now) else none

unfoldable pub deadline : Execution → InstanceState → Proc (Option ℤ)
deadline x state =
    if instance_state_eq state InstanceState.running
    then (do row ← query (get_instance (target x)); pure (deadline_of x.deadline_now (flatten row)))
    else pure none

unfoldable pub is_stop : OpKind → Bool
is_stop OpKind.stop = true
is_stop _ = false

abbrev pub stop_reason_of : Bool → Answer (Option StopStatus) → StopReason
stop_reason_of requested (ok (some s)) = record {
  requested = requested;
  exit_code = s.exit_code;
  detail = s.detail;
}
stop_reason_of requested (ok none) = record { requested = requested; exit_code = none; detail = "" }
stop_reason_of requested (err _) = record {
  requested = requested;
  exit_code = none;
  detail = "the substrate could not be asked why it stopped";
}

-- `stop_reason_from`: the reason that a row holds
abbrev pub text_or_empty : Option String → String
text_or_empty none = ""
text_or_empty (some s) = s

abbrev pub stored_reason : Option InstanceRow → Option StopReason
stored_reason none = none
stored_reason (some r) = elim r.stop_requested [
  | none ↦ none
  | some requested ↦ some (record {
    requested = requested;
    exit_code = r.stop_exit_code;
    detail = text_or_empty r.stop_detail;
  })
]

-- why the instance stopped, where this operation stopped it, or why it had stopped before
unfoldable pub reason : Execution → InstanceState → Proc (Option StopReason)
unfolding is_stop
reason x state =
    if instance_state_eq state InstanceState.stopped
    then (if touches_instance_state x.kind
        then (do
          a ← ask (Call.stop_status (target x))
          pure (some (stop_reason_of (is_stop x.kind) a)))
        else (do row ← query (get_instance (target x)); pure (stored_reason (flatten row))))
    else pure none

abbrev pub makes_sandbox : OpKind → Bool
makes_sandbox OpKind.create = true
makes_sandbox OpKind.fork = true
makes_sandbox _ = false

abbrev pub is_unavailable : ErrorReason → Bool
is_unavailable ErrorReason.substrate_unavailable = true
is_unavailable _ = false

-- before a failure is journaled: a failed create leaves no sandbox, and an unreachable substrate is
-- reported
unfoldable pub clean_up : Execution → Work → Proc (List String)
clean_up x succeeded = pure []
clean_up x (failed why message) = do
  (if makes_sandbox x.kind then (do ask (Call.remove_orphan (target x)); pure tt) else pure tt)
  (if is_unavailable why then degrade x "the substrate is not answering" else pure [])

abbrev pub finish_db : Finish → ℤ → Db → Option Finalized × Db
finish_db q now d =
    let (answer, j) = finish_operation q now d.journal in (answer, record d { journal = j })

abbrev pub finish_of :
    Execution → InstanceState → Option ℤ → Option StopReason → List String → Work → Finish
finish_of x state ttl why degraded work = record {
  op_id = x.op.op_id;
  instance_id = target x;
  state = state;
  ttl_deadline_ms = ttl;
  stop_reason = why;
  clear_ready = not (instance_state_eq state InstanceState.running);
  degraded = joined degraded;
  outcome = work;
}

unfoldable pub rotated : Execution → Work → Option ℕ → Proc (Unit {0})
rotated x succeeded (some epoch) = tell (Notice.epoch_rotated (target x) x.op.op_id epoch)
rotated x _ _ = pure tt

-- what is announced once the outcome is committed
unfoldable pub committed : Execution → Finish → Work → Option ℕ → Option Finalized → Proc (Unit {0})
unfolding rotated
committed x q work epoch none =
    tell (Notice.degradation (target x) x.op.op_id "the journal could not record the outcome")
committed x q work epoch (some f) = do
  (if f.readiness_changed then tell (Notice.ready_changed (target x) false) else pure tt)
  tell (Notice.state_changed (target x) x.op.op_id q.state q.stop_reason)
  tell (Notice.stamp_lease_state (target x))
  rotated x work epoch

unfoldable pub close : Execution → Finish → Work → Option ℕ → Proc (Unit {0})
unfolding committed
close x q work epoch = do
  answer ← transact (finish_db q x.finish_now)
  committed x q work epoch answer

-- from the step `finalize` on
unfoldable pub finalize : Execution → Option ℕ → Done → Proc (Unit {0})
unfolding deadline reason clean_up close
finalize x epoch result = do
  step x "finalize"
  let work = result.0
  let state = settled_state x work
  ttl ← deadline x state
  why ← reason x state
  late ← clean_up x work
  close x (finish_of x state ttl why (result.1 ++ late) work) work epoch

-- what is announced once a failure without an epoch is committed
unfoldable pub failure_committed : Execution → Option Finalized → Proc (Unit {0})
failure_committed x none = pure tt
failure_committed x (some f) = do
  (if f.readiness_changed then tell (Notice.ready_changed (target x) false) else pure tt)
  tell (Notice.state_changed (target x) x.op.op_id InstanceState.failed none)
  tell (Notice.stamp_lease_state (target x))

abbrev pub epoch_failure : Work
epoch_failure = failed ErrorReason.unspecified "the execution epoch could not be bound"

abbrev pub failure_finish : Execution → Finish
failure_finish x = finish_of x InstanceState.failed none none [] epoch_failure

-- The end of an operation whose run could not be given an epoch: it fails before any call.
unfoldable pub fail_closed : Execution → Proc (Unit {0})
unfolding failure_committed
fail_closed x = do
  step x "finalize"
  answer ← transact (finish_db (failure_finish x) x.finish_now)
  failure_committed x answer
