-- ===== src/Journal/Invariant/Preserved.antt =====
-- Every method of `Db` (crates/barista-node-agent/src/db.rs) keeps the invariant on operations.
use Prim.Native.String.{String}
use text.Mathlib.Text.{◌==◌ as str_eq}
use text.Mathlib.TextEquality.{eq_iff}
use mathlib.Core.Path.{subst}
use barista_sh.Base.{
  Bool, true, false, ◌||◌, ◌==◌, Bool-cases, List, [], ◌∷◌, Option, none, some, any, ◌≡◌, inl, inr,
  refl, arith, ap, sym,
}
use barista_sh.Base.Int.{ℤ}
use barista_sh.Contract.{OperationState, ErrorReason, operation_state_eq}
use barista_sh.Journal.Table.{find, count, update, count-update, All-update, count-update-under}
use barista_sh.Journal.Rows.{
  OperationRow, StoredOperation, Journal, Submission, of_instance, of_op, of_key,
}
use barista_sh.Journal.Submit.{Request, active_on, queued_row, submit_atomically}
use barista_sh.Journal.Submit.Verdict.{Verdict, submit-Verdict}
use barista_sh.Journal.Operations.{
  in_flight_ops, ops_movable_to, op_in, set_op_step, set_op_froze_workload, set_op_fork_mode,
  failed_row, finish_op_failed, move_op, await_op_input, resume_op_from_input, finish_op_canceled,
  in_flight_ids, fail_all, fail_inflight_ops, release_claims, claimed_row, Finish, finished_row,
  is_canceled, may_apply, finish_operation,
}
use barista_sh.Journal.Instances.{
  set_instance_state, issue_execution_epoch, set_instance_epoch, set_instance_ready,
  set_ttl_deadline, set_wake_at, point_at, unpoint,
}
use barista_sh.Journal.Steps.{
  Change, submits, steps, freezes, measures, parks, resumes, cancels, finishes, recovers, enters,
  issues, binds, readies, rearms, wakes, points, unpoints, opens, Reached, begins, goes_on,
}
use barista_sh.Journal.Invariant.{Owns, Sound, update-Sound}
use barista_sh.Journal.Invariant.Moves.{
  movable-in_flight, in_flight_ops-in_flight, awaiting-in_flight, in_flight-listed, step-Tame,
  freeze-Tame, mode-Tame, failed-Tame, canceled-Tame, finished-Tame, inactive-Sound,
}

count-fresh :
    (c k : StoredOperation → Bool) (ops : List StoredOperation)
    → ((r : StoredOperation) → c r ≡ false → k r ≡ false)
    → any c ops ≡ false
    → count k ops ≡ 0
count-fresh c k [] h e = refl
count-fresh c k (r ∷ ops) h e = ground (arith, h r, count-fresh c k ops h)

same_text : (a b c : String) → str_eq a b ≡ true → str_eq a c ≡ str_eq b c
same_text a b c e = ap (λ x. str_eq x c) ((eq_iff a b).0 e)

queued-Sound :
    (op : OperationRow) (key : String) (ops : List StoredOperation)
    → count (active_on op.instance_id) ops ≡ 0
    → any (λ r. of_op op.op_id r || of_key key r) ops ≡ false
    → Sound ops
    → Sound (queued_row op key ∷ ops)
queued-Sound op key ops idle fresh s = record {
  one_active = λ id. elim (Bool-cases (str_eq op.instance_id id)) [
    | inl e ↦
        ground
          (arith, e, subst (λ x. count (active_on x) ops ≡ 0) ((eq_iff op.instance_id id).0 e) idle)
    | inr e ↦ ground (arith, e, s.one_active id)
  ];
  one_id = λ id. elim (Bool-cases (str_eq op.op_id id)) [
    | inl e ↦ ground (
      arith,
      e,
      subst (λ x. count (of_op x) ops ≡ 0) ((eq_iff op.op_id id).0 e)
          (count-fresh (λ r. of_op op.op_id r || of_key key r) (of_op op.op_id) ops
            (λ r h. ground arith) fresh),
    )
    | inr e ↦ ground (arith, e, s.one_id id)
  ];
  one_key = λ k. elim (Bool-cases (str_eq key k)) [
    | inl e ↦ ground (
      arith,
      e,
      subst (λ x. count (of_key x) ops ≡ 0) ((eq_iff key k).0 e)
          (count-fresh (λ r. of_op op.op_id r || of_key key r) (of_key key) ops
            (λ r h. ground arith) fresh),
    )
    | inr e ↦ ground (arith, e, s.one_key k)
  ];
  owned = (λ h. refl, s.owned);
}

Verdict-Sound :
    (q : Request) (t now : ℤ) (j : Journal) (o : Option Submission) (k : Journal)
    → Verdict q t now j o k
    → Sound j.operations
    → Sound k.operations
Verdict-Sound q t now j none k v s = subst (λ x. Sound x) (sym (ap (λ x. x.operations) v)) s
Verdict-Sound q t now j (some (Submission.journaled p)) k v s =
    subst (λ x. Sound x) (sym v.queued)
      (queued-Sound q.op q.idempotency_key j.operations v.idle v.fresh s)
Verdict-Sound q t now j (some (Submission.replay p)) k v s =
    subst (λ x. Sound x) (sym (ap (λ x. x.operations) v.0)) s
Verdict-Sound q t now j (some Submission.conflict) k v s =
    subst (λ x. Sound x) (sym (ap (λ x. x.operations) v.0)) s
Verdict-Sound q t now j (some Submission.rejected) k v s =
    subst (λ x. Sound x) (sym (ap (λ x. x.operations) v.0)) s
Verdict-Sound q t now j (some Submission.claim_superseded) k v s =
    subst (λ x. Sound x) (sym (ap (λ x. x.operations) v.0)) s

finish-Sound :
    (q : Finish) (now : ℤ) (j : Journal)
    → Sound j.operations
    → Sound (finish_operation q now j).1.operations
unfolding finish_operation
finish-Sound q now j s =
    let p = op_in q.op_id in_flight_ops in
    let done = update p (finished_row q now) j.operations in
    let after = update-Sound p (finished_row q now) j.operations (finished-Tame q now p) s in
    elim (Bool-cases (count p j.operations == 1)) [
      | inl e ↦ rw e after
      | inr e ↦ elim (Bool-cases (is_canceled (find (of_op q.op_id) done))) [
        | inr c ↦ rw (e, c) s
        | inl c ↦
            elim (Bool-cases (may_apply (find (of_instance q.instance_id) j.instances) q.state)) [
              | inr m ↦ rw (e, c, m) s
              | inl m ↦ rw (e, c, m) (inactive-Sound q.op_id done c after)
            ]
      ]
    ]

fail_all-Sound :
    (ids : List String) (message : String) (now : ℤ) (j : Journal)
    → Sound j.operations
    → Sound (fail_all ids message now j).operations
unfolding finish_op_failed
fail_all-Sound [] message now j s = s
fail_all-Sound (id ∷ ids) message now j s =
    fail_all-Sound ids message now (finish_op_failed id ErrorReason.unspecified message now j) (
      update-Sound (of_op id) (failed_row ErrorReason.unspecified message now) j.operations
        (failed-Tame id ErrorReason.unspecified message now) s)

released-Sound :
    (ops : List StoredOperation) → Sound ops → Sound (update (λ r. true) claimed_row ops)
released-Sound ops s = record {
  one_active = λ id. omega (
    arith,
    s.one_active id,
    count-update-under Owns (active_on id) (λ r. true) claimed_row ops
        (λ r o h. ground (arith, o, in_flight_ops-in_flight r.op.state)) s.owned,
  );
  one_id = λ id.
      omega (arith, s.one_id id, count-update (of_op id) (λ r. true) claimed_row ops (λ r h. h));
  one_key = λ key.
      omega
        (arith, s.one_key key, count-update (of_key key) (λ r. true) claimed_row ops (λ r h. h));
  owned =
      All-update Owns (λ r. true) claimed_row ops (λ r m o h. in_flight-listed r.op.state h)
        s.owned;
}

pub Change-Sound : {j k : Journal} → Change j k → Sound j.operations → Sound k.operations
unfolding release_claims set_op_step set_op_froze_workload set_op_fork_mode move_op await_op_input
    resume_op_from_input finish_op_canceled fail_inflight_ops set_instance_state
    issue_execution_epoch set_instance_epoch set_instance_ready set_ttl_deadline set_wake_at
    point_at unpoint
Change-Sound {j = j} (submits q t now) s =
    Verdict-Sound q t now j (submit_atomically q t now j).0 (submit_atomically q t now j).1
      (submit-Verdict q t now j) s
Change-Sound {j = j} (steps id step) s =
    update-Sound _ _ j.operations
      (step-Tame id in_flight_ops OperationState.running step in_flight_ops-in_flight) s
Change-Sound {j = j} (freezes id) s = update-Sound _ _ j.operations (freeze-Tame id) s
Change-Sound {j = j} (measures id mode) s = update-Sound _ _ j.operations (mode-Tame id mode) s
Change-Sound {j = j} (parks id prompt) s =
    update-Sound _ _ j.operations
      (step-Tame id (ops_movable_to OperationState.awaiting_input) OperationState.awaiting_input
        prompt (movable-in_flight OperationState.awaiting_input))
      s
Change-Sound {j = j} (resumes id step) s =
    update-Sound _ _ j.operations
      (step-Tame id (λ s. operation_state_eq s OperationState.awaiting_input) OperationState.running
        step awaiting-in_flight)
      s
Change-Sound {j = j} (cancels id reason now) s =
    update-Sound _ _ j.operations (canceled-Tame id reason now _) s
Change-Sound {j = j} (finishes q now) s = finish-Sound q now j s
Change-Sound {j = j} (recovers message now) s =
    fail_all-Sound (in_flight_ids j.operations) message now j s
Change-Sound {j = j} opens s = released-Sound j.operations s
Change-Sound (enters id t now) s = s
Change-Sound issues s = s
Change-Sound (binds id epoch now) s = s
Change-Sound (rearms i d now) s = s
Change-Sound (wakes i at now) s = s
Change-Sound (points i sid now) s = s
Change-Sound (unpoints sid) s = s
Change-Sound (readies id ready now) s = s

begin-Sound : Sound []
begin-Sound = record {
  one_active = λ id. omega arith;
  one_id = λ id. omega arith;
  one_key = λ key. omega arith;
  owned = tt;
}

-- In every journal that the node reaches from an empty one, each instance has at most one
-- operation whose executor still owns it, no two operations have one id or one idempotency key,
-- and an operation in flight is always owned by its executor.
pub Reached-Sound : {j : Journal} → Reached j → Sound j.operations
Reached-Sound begins = begin-Sound
Reached-Sound (goes_on r c) = Change-Sound c (Reached-Sound r)
