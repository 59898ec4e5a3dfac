-- ===== src/Node/Executor/Concludes.antt =====
-- How an executor that runs alone ends (`execute` of crates/barista-node-agent/src/ops.rs), by its
-- kind and by the answers of the runtime.
use mathlib.Core.Path.{subst}
use barista_sh.Base.{
  ℕ, false, Bool-cases, Option, none, some, if◌then◌else◌, ◌≡◌, ◌≢◌, inl, inr, refl, sym, arith,
}
use barista_sh.Contract.{InstanceState, OperationState, instance_state_eq, instance_state_eq-eq}
use barista_sh.Journal.Table.{find, count}
use barista_sh.Journal.Rows.{StoredOperation, InstanceRow, of_instance, of_op}
use barista_sh.Journal.Instances.{issue_execution_epoch, set_instance_epoch}
use barista_sh.Journal.Operations.{Work, succeeded, failed}
use barista_sh.Journal.Snapshots.{Db}
use barista_sh.Policy.Plan.{OpKind, states, touches_instance_state}
use barista_sh.Node.Runtime.{Call, Reply}
use barista_sh.Node.Process.{Notice, Proc, notify, bind}
use barista_sh.Node.Sequential.{run, run-bind, run-Runs, kept}
use barista_sh.Node.Executor.{execute, want_epoch, bind_epoch, is_boot, Epoch}
use barista_sh.Node.Executor.Steps.{Execution, target}
use barista_sh.Node.Executor.Verbs.{run_verb}
use barista_sh.Node.Executor.Finalize.{finalize, fail_closed, epoch_failure, settled_state}
use barista_sh.Node.Executor.Conduct.Verb.{verb-Safe}
use barista_sh.Node.Executor.Ready.{Ready}
use barista_sh.Node.Executor.Settles.{
  OnReady, SettledAs, WantsIt, readied, finalize-Settled, fail_closed-Settled, wanted, keeps-Ready,
}
use barista_sh.Node.Executor.Outcome.{Refused, Served, IsFailed, refused_fails, Served-Succeeds}

-- Where an instance is when an operation on it has ended, by the operation's kind, its work, and the
-- state that the instance was recorded in meanwhile.
abbrev pub Lands : OpKind → Work → InstanceState → InstanceState → Type 0
Lands OpKind.create_snapshot work recorded s =
    (recorded ≡ InstanceState.checkpointing → s ≡ InstanceState.running)
    × (recorded ≢ InstanceState.checkpointing → s ≡ recorded)
Lands OpKind.delete_snapshot work recorded s = (s ≡ recorded)
Lands kind (failed why message) recorded s = (s ≡ InstanceState.failed)
Lands OpKind.create succeeded recorded s =
    recorded ≡ InstanceState.creating → s ≡ InstanceState.created
Lands OpKind.fork succeeded recorded s =
    recorded ≡ InstanceState.creating → s ≡ InstanceState.running
Lands OpKind.start succeeded recorded s =
    recorded ≡ InstanceState.starting → s ≡ InstanceState.running
Lands OpKind.resume succeeded recorded s =
    recorded ≡ InstanceState.resuming → s ≡ InstanceState.running
Lands OpKind.stop succeeded recorded s =
    recorded ≡ InstanceState.stopping → s ≡ InstanceState.stopped
Lands OpKind.pause succeeded recorded s =
    recorded ≡ InstanceState.pausing → s ≡ InstanceState.paused
Lands OpKind.destroy succeeded recorded s =
    recorded ≡ InstanceState.destroying → s ≡ InstanceState.destroyed

-- The state of an operation that has ended.
abbrev pub Ended : Work → OperationState → Type 0
Ended succeeded s = (s ≡ OperationState.done)
Ended (failed why message) s = (s ≡ OperationState.failed)

-- What an execution that started on `d` leaves in `e`.
pub record Concluded (answers : (c : Call) → Reply c) (x : Execution) (d e : Db) : Type 0 where
  pub work : Work
  pub row : StoredOperation
  pub found : find (of_op x.op.op_id) e.journal.operations ≡ some row
  pub outcome : Ended work row.op.state
  pub free : row.executor_active ≡ false
  pub instance_row : InstanceRow
  pub present : find (of_instance (target x)) e.journal.instances ≡ some instance_row
  pub lands : Lands x.kind work x.recorded instance_row.state
  pub fails : Refused answers (target x) x.payload → IsFailed work
  pub serves :
      count (of_instance (target x)) d.journal.instances ≡ 1
      → Served answers (target x) x.payload
      → work ≡ succeeded

-- `settled_state`, from what it reads
abbrev landed : OpKind → InstanceState → Work → InstanceState
landed kind recorded succeeded =
    if instance_state_eq recorded (states kind).0 then (states kind).1 else recorded
landed kind recorded (failed _ _) =
    if touches_instance_state kind
    then InstanceState.failed
    else (if instance_state_eq recorded (states kind).0 then (states kind).1 else recorded)

captured-lands :
    (recorded : InstanceState)
    → (recorded ≡ InstanceState.checkpointing
        → (if instance_state_eq recorded InstanceState.checkpointing
            then InstanceState.running
            else recorded)
          ≡ InstanceState.running)
      × (recorded ≢ InstanceState.checkpointing
          → (if instance_state_eq recorded InstanceState.checkpointing
              then InstanceState.running
              else recorded)
            ≡ recorded)
captured-lands recorded = (
  λ e. rw e refl,
  λ ne. elim (Bool-cases (instance_state_eq recorded InstanceState.checkpointing)) [
    | inl t ↦ absurd (ne (instance_state_eq-eq recorded InstanceState.checkpointing t))
    | inr f ↦ rw f refl
  ],
)

deleted-lands :
    (recorded : InstanceState)
    → (if instance_state_eq recorded InstanceState.unspecified
        then InstanceState.unspecified
        else recorded)
      ≡ recorded
deleted-lands recorded = elim (Bool-cases (instance_state_eq recorded InstanceState.unspecified)) [
  | inl t ↦ rw t (sym (instance_state_eq-eq recorded InstanceState.unspecified t))
  | inr f ↦ rw f refl
]

landed-Lands :
    (kind : OpKind) (recorded : InstanceState) (work : Work)
    → Lands kind work recorded (landed kind recorded work)
unfolding states touches_instance_state
landed-Lands OpKind.create recorded succeeded = λ e. rw e refl
landed-Lands OpKind.fork recorded succeeded = λ e. rw e refl
landed-Lands OpKind.start recorded succeeded = λ e. rw e refl
landed-Lands OpKind.resume recorded succeeded = λ e. rw e refl
landed-Lands OpKind.stop recorded succeeded = λ e. rw e refl
landed-Lands OpKind.pause recorded succeeded = λ e. rw e refl
landed-Lands OpKind.destroy recorded succeeded = λ e. rw e refl
landed-Lands OpKind.create_snapshot recorded succeeded = captured-lands recorded
landed-Lands OpKind.create_snapshot recorded (failed why message) = captured-lands recorded
landed-Lands OpKind.delete_snapshot recorded succeeded = deleted-lands recorded
landed-Lands OpKind.delete_snapshot recorded (failed why message) = deleted-lands recorded
landed-Lands OpKind.create recorded (failed why message) = refl
landed-Lands OpKind.fork recorded (failed why message) = refl
landed-Lands OpKind.start recorded (failed why message) = refl
landed-Lands OpKind.resume recorded (failed why message) = refl
landed-Lands OpKind.stop recorded (failed why message) = refl
landed-Lands OpKind.pause recorded (failed why message) = refl
landed-Lands OpKind.destroy recorded (failed why message) = refl

module _ (answers : (c : Call) → Reply c) (x : Execution) (d : Db) where
  concluded :
      (work : Work) (e : Db)
      → SettledAs x work (settled_state x work) e
      → (Refused answers (target x) x.payload → IsFailed work)
      → (count (of_instance (target x)) d.journal.instances ≡ 1
          → Served answers (target x) x.payload
          → work ≡ succeeded)
      → Concluded answers x d e
  concluded succeeded e h fails serves = record {
    work = succeeded;
    row = h.row;
    found = h.found;
    outcome = h.outcome;
    free = h.free;
    instance_row = h.instance_row;
    present = h.present;
    lands =
        subst (Lands x.kind succeeded x.recorded) (sym h.reached)
          (landed-Lands x.kind x.recorded succeeded);
    fails = fails;
    serves = serves;
  }
  concluded (failed why message) e h fails serves = record {
    work = failed why message;
    row = h.row;
    found = h.found;
    outcome = h.outcome;
    free = h.free;
    instance_row = h.instance_row;
    present = h.present;
    lands =
        subst (Lands x.kind (failed why message) x.recorded) (sym h.reached)
          (landed-Lands x.kind x.recorded (failed why message));
    fails = fails;
    serves = serves;
  }

  verb-Concluded :
      (epoch : Option ℕ) (m : Db)
      → Ready x.op.op_id (target x) m
      → Concluded answers x d
          (run answers m (bind (run_verb x epoch) (λ result. finalize x epoch result))).1
  verb-Concluded epoch m h =
      let w = run answers m (run_verb x epoch) in
      let after : Ready x.op.op_id (target x) (w.1) =
        readied x m (run_verb x epoch) (w.0) (w.1)
          (verb-Safe (OnReady x) (λ c. Unit) x (keeps-Ready x) epoch) h
          (run-Runs answers m (run_verb x epoch)) in
      subst (λ (r : Unit {0} × Db). Concluded answers x d (r.1))
        (sym (run-bind answers m (run_verb x epoch) (λ result. finalize x epoch result)))
        (concluded (w.0.0) (run answers (w.1) (finalize x epoch (w.0))).1
          (finalize-Settled x epoch (w.0) (w.1) (run answers (w.1) (finalize x epoch (w.0))).1 after
            (run-Runs answers (w.1) (finalize x epoch (w.0))))
          (λ r. refused_fails answers x epoch m r)
          (λ one s. Served-Succeeds answers x epoch m h.instance_row h.present s))

  -- where the instance has one row, an epoch that is wanted is bound
  epoch_bound :
      count (of_instance (target x)) d.journal.instances ≡ 1
      → (run answers d (want_epoch x)).0 ≢ Epoch.unbound
  unfolding want_epoch bind_epoch issue_execution_epoch set_instance_epoch
  epoch_bound one e = elim (Bool-cases (is_boot x.kind)) [
    | inl b ↦ absurd (ground (arith, b, one, e))
    | inr b ↦ absurd (ground (arith, b, e))
  ]

-- However the runtime and the guest answer, an executor that runs alone on an operation in flight,
-- with its reads and writes carried out, leaves that operation done or failed, without an executor,
-- and its instance where the kind takes it: a success from the kind's transitional state to its final
-- one, a failure to FAILED, but for the two snapshot verbs, which leave the instance RUNNING or where
-- it was. It has failed where the runtime refuses the call that does its payload's work, and, where
-- the instance has one row, it has succeeded where the runtime does that work, if the payload is no
-- resume and no restore of a capsule.
pub execute_concludes :
    (answers : (c : Call) → Reply c) (x : Execution) (d : Db)
    → Ready x.op.op_id (target x) d
    → Concluded answers x d (run answers d (execute x)).1
unfolding execute
execute_concludes answers x d h =
    let w = run answers d (want_epoch x) in
    let (ready, wants) =
      kept (Ready x.op.op_id (target x)) (λ c. Unit) (WantsIt x) d (want_epoch x) (w.0) (w.1)
        (wanted x) h (run-Runs answers d (want_epoch x)) in
    subst (λ (r : Unit {0} × Db). Concluded answers x d (r.1))
      (sym (run-bind answers d (want_epoch x) (λ epoch. runs_with epoch)))
      (by_epoch (w.0) (w.1) refl ready wants)
  where
    runs_with : Epoch → Proc (Unit {0})
    runs_with epoch = notify (Notice.stamp_lease_state (target x)) (elim epoch [
      | Epoch.unbound ↦ fail_closed x
      | Epoch.not_wanted ↦ bind (run_verb x none) (λ result. finalize x none result)
      | Epoch.bound n ↦ bind (run_verb x (some n)) (λ result. finalize x (some n) result)
    ])

    by_epoch :
        (epoch : Epoch) (m : Db)
        → (run answers d (want_epoch x)).0 ≡ epoch
        → Ready x.op.op_id (target x) m
        → WantsIt x epoch
        → Concluded answers x d (run answers m (runs_with epoch)).1
    by_epoch Epoch.unbound m e ready b =
        concluded answers x d epoch_failure (run answers m (fail_closed x)).1
          (fail_closed-Settled x m (run answers m (fail_closed x)).1 b ready
            (run-Runs answers m (fail_closed x)))
          (λ r. tt) (λ one s. absurd (epoch_bound answers x d one e))
    by_epoch Epoch.not_wanted m e ready b = verb-Concluded answers x d none m ready
    by_epoch (Epoch.bound n) m e ready b = verb-Concluded answers x d (some n) m ready
