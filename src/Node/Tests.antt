-- ===== src/Node/Tests.antt =====
-- Concrete runs of the operations of crates/barista-node-agent/src/ops.rs.
use barista_sh.Base.{◌+◌, true, none, some, [], ◌∷◌, ◌≡◌, inl, refl}
use barista_sh.Base.Int.{pos}
use barista_sh.Contract.{InstanceState}
use barista_sh.Policy.Plan.{OpKind, states}
use barista_sh.Journal.Submit.{
  replay_check, conflict_check, planned_state, consume_claim, insert_operation, write_instance,
  submission, submit_atomically,
}
use barista_sh.Node.Runtime.{Call}
use barista_sh.Node.Payload.{OpPayload}
use barista_sh.Node.Process.{Proc}
use barista_sh.Node.Sequential.{Runs, led, run, run-Runs}
use barista_sh.Node.Submit.{
  SubmitResult, submitted, op_of, guest_token, checked, refused_resume, refused_name, journal_it,
  verdict, announced, submit_claiming,
}
use barista_sh.Node.System.{empty_db, System, Progress}
use barista_sh.Node.Executor.{want_epoch, bind_epoch, execute, issue_db, bind_db}
use barista_sh.Node.Executor.Steps.{Execution, target, on_journal}
use barista_sh.Node.Executor.Concludes.{Concluded, execute_concludes}
use barista_sh.Node.System.Pointed.{Pointed, snapshots_Pointed}
use barista_sh.Node.Refused.{Unless, refusal_changes_nothing}
use barista_sh.Node.Sample.{bare_spec, fake, answers, creating, made}
use barista_sh.Node.Journaled.{Begun}
use barista_sh.Node.Launch.{Launched, submit-Leads, submitted_settles}
use barista_sh.Node.Executor.Waits.{Asks, Bound, boot_waits_for_epoch}
use barista_sh.Node.Executor.Verbs.{run_verb, run_start}
use barista_sh.Journal.Snapshots.{Db}
use barista_sh.Journal.Operations.{set_op_step}
use barista_sh.Journal.Instances.{issue_execution_epoch, set_instance_epoch}
use Prim.Native.String.{String}
use barista_sh.Node.Executor.Ready.{Ready}
use barista_sh.Node.System.Journaled.{tasks-Sound}
use barista_sh.Journal.Invariant.{Sound}

abbrev launch : Execution
launch = record {
  cfg = fake;
  kind = OpKind.create;
  op = op_of creating;
  payload = OpPayload.create bare_spec;
  recorded = InstanceState.creating;
  bind_now = pos 7;
  snapshot_now = pos 7;
  deadline_now = pos 7;
  finish_now = pos 8;
}

made-Runs :
    Runs empty_db
      (submit_claiming fake creating)
      (submitted (op_of creating) (some InstanceState.creating))
      made
unfolding submit_claiming guest_token checked refused_resume refused_name journal_it verdict
    announced submit_atomically submission replay_check conflict_check planned_state consume_claim
    insert_operation write_instance states
made-Runs = (true, (refl, refl))

submitted_settles_example :
    (launch.op.op_id ≡ "op-1")
    × (target launch ≡ "i-1")
    × Begun OpKind.create InstanceState.creating
    × Concluded answers launch made (run answers made (execute launch)).1
submitted_settles_example =
    submitted_settles fake creating empty_db made (op_of creating) InstanceState.creating launch
      answers refl made-Runs refl refl refl

made-Ready : Ready "op-1" "i-1" made
made-Ready =
    (led (Launched creating) empty_db (submit_claiming fake creating)
      (submitted (op_of creating) (some InstanceState.creating)) made
      (submit-Leads creating fake empty_db refl) made-Runs).1

execute_concludes_example : Concluded answers launch made (run answers made (execute launch)).1
execute_concludes_example = execute_concludes answers launch made made-Ready

abbrev starting : Execution
starting = record launch { kind = OpKind.start; payload = OpPayload.start }

-- the database when the start calls the runtime
abbrev at_start : Db
at_start =
    on_journal (set_op_step "op-1" "runtime.start") (bind_db "i-1" 1 (pos 7) (issue_db made).1).1

abbrev start_call : Call
start_call = Call.start "i-1" bare_spec (record { token = "t-1"; identity = none })

start-Asks : Asks made (execute starting) start_call at_start
unfolding execute want_epoch bind_epoch run_verb run_start issue_execution_epoch set_instance_epoch
    set_op_step submit_claiming submit_atomically submission replay_check conflict_check
    planned_state consume_claim insert_operation write_instance states
start-Asks = inl (inl (inl (inl (inl (refl, refl)))))

boot_waits_for_epoch_example : Bound "i-1" (made.journal.next_execution_epoch + 1) at_start
boot_waits_for_epoch_example =
    boot_waits_for_epoch starting made at_start start_call refl start-Asks

-- an agent whose submission has written, with an executor that has not begun
under_way :
    (p : Proc SubmitResult) × System made ((SubmitResult, p) ∷ (Unit {0}, execute starting) ∷ [])
unfolding submit_claiming guest_token checked refused_resume refused_name journal_it verdict
    submit_atomically submission replay_check conflict_check planned_state consume_claim
    insert_operation write_instance states
under_way = (
  _,
  System.advances [] ((Unit {0}, execute starting) ∷ [])
      (System.advances [] ((Unit {0}, execute starting) ∷ [])
        (System.submits fake creating (System.executes starting System.begins))
        (Progress.calls Call.entropy _ true))
      (Progress.writes _ _),
)

tasks-Sound_example : Sound made.journal.operations
tasks-Sound_example =
    tasks-Sound made ((SubmitResult, under_way.0) ∷ (Unit {0}, execute starting) ∷ []) (under_way.1)

snapshots_Pointed_example : Pointed made
snapshots_Pointed_example =
    snapshots_Pointed made ((SubmitResult, under_way.0) ∷ (Unit {0}, execute starting) ∷ [])
      (under_way.1)

-- the same submission again is a replay
refusal_changes_nothing_example :
    Unless made
      (run answers made (submit_claiming fake creating)).0
      (run answers made (submit_claiming fake creating)).1
refusal_changes_nothing_example =
    refusal_changes_nothing fake creating made (run answers made (submit_claiming fake creating)).0
      (run answers made (submit_claiming fake creating)).1
      (run-Runs answers made (submit_claiming fake creating))
