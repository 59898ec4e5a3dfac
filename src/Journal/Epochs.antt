-- ===== src/Journal/Epochs.antt =====
-- Execution epochs: `Db::issue_execution_epoch` of crates/barista-node-agent/src/db.rs, called
-- between any other changes of the journal.
use barista_sh.Base.{
  ◌≤◌, ◌<◌, List, [], ◌∷◌, Option, none, some, ◌≡◌, refl, ap, arith, Bool-cases, inl, inr, ◌==◌,
}
use barista_sh.Base.Int.{ℤ}
use barista_sh.Contract.{ErrorReason}
use Prim.Native.String.{String}
use barista_sh.Journal.Rows.{Journal, Submission, of_instance, of_op}
use barista_sh.Journal.Table.{find, count, update}
use barista_sh.Journal.Submit.{Request, submit_atomically}
use barista_sh.Journal.Submit.Verdict.{Verdict, submit-Verdict}
use barista_sh.Journal.Operations.{
  set_op_step, set_op_froze_workload, set_op_fork_mode, await_op_input, resume_op_from_input,
  move_op, finish_op_canceled, finish_op_failed, fail_all, in_flight_ids, fail_inflight_ops,
  release_claims, Finish, finish_operation, op_in, in_flight_ops, is_canceled, may_apply,
  finished_row,
}
use barista_sh.Journal.Instances.{
  set_instance_state, issue_execution_epoch, set_instance_epoch, set_instance_ready,
  set_ttl_deadline, set_wake_at, point_at, unpoint,
}
use barista_sh.Journal.Steps.{Change, submits, finishes, recovers, issues}
use barista_sh.Journal.Settled.{Later, now, next}

Verdict-epoch :
    (q : Request) (t n : ℤ) (j : Journal) (o : Option Submission) (k : Journal)
    → Verdict q t n j o k
    → k.next_execution_epoch ≡ j.next_execution_epoch
Verdict-epoch q t n j none k v = ap (λ x. x.next_execution_epoch) v
Verdict-epoch q t n j (some (Submission.journaled p)) k v = v.epochs
Verdict-epoch q t n j (some (Submission.replay p)) k v = ap (λ x. x.next_execution_epoch) v.0
Verdict-epoch q t n j (some Submission.conflict) k v = ap (λ x. x.next_execution_epoch) v.0
Verdict-epoch q t n j (some Submission.rejected) k v = ap (λ x. x.next_execution_epoch) v.0
Verdict-epoch q t n j (some Submission.claim_superseded) k v = ap (λ x. x.next_execution_epoch) v.0

fail_all-epoch :
    (ids : List String) (message : String) (n : ℤ) (j : Journal)
    → (fail_all ids message n j).next_execution_epoch ≡ j.next_execution_epoch
unfolding finish_op_failed
fail_all-epoch [] message n j = refl
fail_all-epoch (id ∷ ids) message n j =
    fail_all-epoch ids message n (finish_op_failed id ErrorReason.unspecified message n j)

finish-epoch :
    (q : Finish) (n : ℤ) (j : Journal)
    → (finish_operation q n j).1.next_execution_epoch ≡ j.next_execution_epoch
unfolding finish_operation
finish-epoch q n j = elim (Bool-cases (count (op_in q.op_id in_flight_ops) j.operations == 1)) [
  | inl c ↦ rw c refl
  | inr c ↦
      elim (Bool-cases (
        is_canceled (
          find (of_op q.op_id)
            (update (op_in q.op_id in_flight_ops) (finished_row q n) j.operations)))) [
              | inr d ↦ rw (c, d) refl
              | inl d ↦
                  elim (Bool-cases
                    (may_apply (find (of_instance q.instance_id) j.instances) q.state)) [
                      | inr m ↦ rw (c, d, m) refl
                      | inl m ↦ rw (c, d, m) refl
                    ]
            ]
]

Change-epoch : {j k : Journal} → Change j k → j.next_execution_epoch ≤ k.next_execution_epoch
unfolding release_claims set_op_step set_op_froze_workload set_op_fork_mode move_op await_op_input
    resume_op_from_input finish_op_canceled fail_inflight_ops set_instance_state
    issue_execution_epoch set_instance_epoch set_instance_ready set_ttl_deadline set_wake_at
    point_at unpoint
Change-epoch {j = j} (submits q t n) = omega (
  arith,
  Verdict-epoch q t n j (submit_atomically q t n j).0 (submit_atomically q t n j).1
      (submit-Verdict q t n j),
)
Change-epoch {j = j} (finishes q n) = omega (arith, finish-epoch q n j)
Change-epoch {j = j} (recovers message n) =
    omega (arith, fail_all-epoch (in_flight_ids j.operations) message n j)
Change-epoch issues = omega arith
Change-epoch _ = omega arith

Later-epoch : {j k : Journal} → Later j k → j.next_execution_epoch ≤ k.next_execution_epoch
Later-epoch now = omega arith
Later-epoch (next l c) = omega (arith, Later-epoch l, Change-epoch c)

-- An execution epoch is never zero, and one that is issued later, whatever the journal went through
-- in between, is larger: no two are alike.
pub epochs_increase :
    (j k : Journal)
    → Later (issue_execution_epoch j).1 k
    → (0 < (issue_execution_epoch j).0)
      × ((issue_execution_epoch j).0 < (issue_execution_epoch k).0)
unfolding issue_execution_epoch
epochs_increase j k l = (omega arith, omega (arith, Later-epoch l))
