-- ===== src/Node/Launch.antt =====
-- From a submission (`submit_claiming` of crates/barista-node-agent/src/ops.rs) to the end of its
-- executor.
use Prim.Native.String.{String}
use mathlib.Core.Path.{subst}
use text.Mathlib.Text.{◌==◌ as str_eq}
use barista_sh.Base.{
  Bool, true, false, Bool-cases, Option, none, some, List, [], ◌∷◌, if◌then◌else◌, ◌≡◌, inl, inr,
  refl, sym, ◌∙◌, ap,
}
use barista_sh.Contract.{InstanceState, ErrorReason, instance_state_eq}
use barista_sh.Machine.Operation.{op_is_in_flight}
use barista_sh.Journal.Rows.{OperationRow, Submission}
use barista_sh.Journal.Operations.{in_flight_ops, op_states_where}
use barista_sh.Journal.Submit.Verdict.{Verdict, submit-Verdict}
use barista_sh.Journal.Snapshots.{Db, get_instance}
use barista_sh.Policy.Plan.{states}
use barista_sh.Node.Runtime.{Call, Reply}
use barista_sh.Node.Payload.{OpPayload}
use barista_sh.Node.Process.{Notice, done, bind}
use barista_sh.Node.Sequential.{Runs, Leads, led, carry_on, run}
use barista_sh.Node.Submit.{
  Config, Submitting, SubmitResult, submitted, create_spec, op_of, request, guest_token,
  refused_resume, refused_name, same_work, spec_differs, replayed_create, replay, announced,
  verdict, submit_db, journal_it, checked, submit_claiming,
}
use barista_sh.Node.Executor.{execute}
use barista_sh.Node.Executor.Steps.{Execution, target}
use barista_sh.Node.Executor.Ready.{Ready}
use barista_sh.Node.Executor.Concludes.{Concluded, execute_concludes}
use barista_sh.Node.Journaled.{Names, Begun, Plans-Begun, Accepted-Ready}

module _ (s : Submitting) where
  -- A submission that spawned an executor has journaled the operation that the executor gets.
  abbrev pub Launched : SubmitResult → Db → Type 0
  Launched (submitted op (some recorded)) e =
      (op ≡ op_of s) × Ready s.op_id s.instance_id e × Begun s.kind recorded
  Launched _ e = Unit

  module _ (cfg : Config) where
    replayed_create-Leads :
        (p : OpPayload) (o : OperationRow) (d : Db)
        → Leads Launched d (replayed_create cfg s.instance_id p o)
    unfolding replayed_create
    replayed_create-Leads (OpPayload.create spec) o d =
        differs (spec_differs cfg spec (get_instance s.instance_id d))
      where
        differs :
            (b : Bool)
            → Launched
                (if b
                  then SubmitResult.refused ErrorReason.invalid_spec
                  else SubmitResult.submitted o none)
                d
        differs true = tt
        differs false = tt
    replayed_create-Leads _ o d = tt

    replay-Leads :
        (o : OperationRow) (d : Db)
        → Leads Launched d (replay cfg s.instance_id s.payload (op_of s) o)
    unfolding replay
    replay-Leads o d = elim (Bool-cases (same_work o (op_of s))) [
      | inl e ↦ rw e (replayed_create-Leads s.payload o d)
      | inr e ↦ rw e tt
    ]

    announced-Leads :
        (recorded : InstanceState) (ns : List Notice) (d : Db)
        → Ready s.op_id s.instance_id d
        → Begun s.kind recorded
        → Leads Launched d (announced ns s.instance_id (op_of s) (states s.kind).0 recorded)
    unfolding announced
    announced-Leads recorded [] d h b =
        elim (Bool-cases (instance_state_eq recorded (states s.kind).0)) [
          | inl e ↦ rw e (refl, h, b)
          | inr e ↦ rw e (refl, h, b)
        ]
    announced-Leads recorded (n ∷ ns) d h b = announced-Leads recorded ns d h b

    journal_it-Leads :
        (token : String) (d : Db)
        → Names (create_spec s.payload) s.instance_id
        → Leads Launched d (journal_it cfg s token)
    unfolding journal_it verdict in_flight_ops op_states_where op_is_in_flight
    journal_it-Leads token d names =
        let q = request cfg s.kind s.payload (op_of s) s.idempotency_key token s.claim in
        by_answer (submit_db q s.claim_now s.now d).1 (submit_db q s.claim_now s.now d).0
          (submit-Verdict q s.claim_now s.now d.journal)
      where
        by_answer :
            (e : Db) (o : Option Submission)
            → Verdict
                (request cfg s.kind s.payload (op_of s) s.idempotency_key token s.claim)
                s.claim_now
                s.now
                d.journal
                o
                e.journal
            → Leads Launched e (verdict cfg s.kind s.instance_id s.payload s.announce (op_of s) o)
        by_answer e none v = tt
        by_answer e (some (Submission.replay o)) v = replay-Leads o e
        by_answer e (some Submission.conflict) v = tt
        by_answer e (some Submission.rejected) v = tt
        by_answer e (some Submission.claim_superseded) v = tt
        by_answer e (some (Submission.journaled recorded)) v =
            announced-Leads recorded s.announce e
              (Accepted-Ready _ s.claim_now s.now d e recorded names refl v)
              (Plans-Begun s.kind
                (request cfg s.kind s.payload (op_of s) s.idempotency_key token s.claim) d.journal
                recorded refl refl v.plans)

    checked-Leads :
        (token : String) (d : Db)
        → Names (create_spec s.payload) s.instance_id
        → Leads Launched d (checked cfg s token)
    unfolding checked
    checked-Leads token d names =
        carry_on Launched d (refused_resume cfg s.instance_id s.payload) _
          (λ refusal m. by_refusal refusal m)
      where
        by_clash :
            (clash : Option ErrorReason) (m : Db)
            → Leads Launched m (elim clash [
              | some reason ↦ done (SubmitResult.refused reason)
              | none ↦ journal_it cfg s token
            ])
        by_clash none m = journal_it-Leads token m names
        by_clash (some reason) m = tt

        by_refusal :
            (refusal : Option ErrorReason) (m : Db)
            → Leads Launched m (elim refusal [
              | some reason ↦ done (SubmitResult.refused reason)
              | none ↦ bind (refused_name s.instance_id s.payload) (λ clash. elim clash [
                | some reason ↦ done (SubmitResult.refused reason)
                | none ↦ journal_it cfg s token
              ])
            ])
        by_refusal none m =
            carry_on Launched m (refused_name s.instance_id s.payload) _
              (λ clash n. by_clash clash n)
        by_refusal (some reason) m = tt

    pub submit-Leads :
        (d : Db)
        → Names (create_spec s.payload) s.instance_id
        → Leads Launched d (submit_claiming cfg s)
    unfolding submit_claiming
    submit-Leads d names = elim (Bool-cases (str_eq s.idempotency_key "")) [
      | inl e ↦ rw e tt
      | inr e ↦ rw e (
          carry_on Launched d (guest_token s.payload s.fresh_token) _ (λ token m. by_token token m))
    ]
      where
        by_token :
            (token : Option String) (m : Db)
            → Leads Launched m (elim token [
              | none ↦ done (SubmitResult.refused ErrorReason.unspecified)
              | some t ↦ checked cfg s t
            ])
        by_token none m = tt
        by_token (some t) m = checked-Leads t m names

-- However the runtime and the guest answer, a submission that spawns an executor comes to its end:
-- once the executor has run alone, with its reads and writes carried out, its operation is done or
-- failed, without an executor. Its instance was recorded in the kind's transitional state, or, under
-- the two snapshot verbs, may have stayed where it was; a success has taken it to the kind's final
-- state, and a failure to FAILED, but for the snapshot verbs, which leave it RUNNING or where it was.
-- The operation has failed where the runtime refuses the call that does the payload's work, and, where
-- the instance has one row, it has succeeded where the runtime does that work, if the payload is no
-- resume and no restore of a capsule.
pub submitted_settles :
    (cfg : Config) (s : Submitting) (d m : Db) (op : OperationRow) (recorded : InstanceState)
    (x : Execution) (answers : (c : Call) → Reply c)
    → Names (create_spec s.payload) s.instance_id
    → Runs d (submit_claiming cfg s) (submitted op (some recorded)) m
    → x.op ≡ op
    → x.kind ≡ s.kind
    → x.recorded ≡ recorded
    → (x.op.op_id ≡ s.op_id)
      × (target x ≡ s.instance_id)
      × Begun x.kind x.recorded
      × Concluded answers x m (run answers m (execute x)).1
submitted_settles cfg s d m op recorded x answers names r e k b =
    let (is_its, ready, begun) =
      led (Launched s) d (submit_claiming cfg s) (submitted op (some recorded)) m
        (submit-Leads s cfg d names) r in
    let same = e ∙ is_its in
    (
      ap (λ (o : OperationRow). o.op_id) same,
      ap (λ (o : OperationRow). o.instance_id) same,
      subst (λ kind. Begun kind x.recorded) (sym k) (subst (Begun s.kind) (sym b) begun),
      execute_concludes answers x m (subst (λ o. Ready o.op_id o.instance_id m) (sym same) ready),
    )
