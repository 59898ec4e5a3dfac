-- ===== src/Journal/Advances.antt =====
-- Every method of `Db` (crates/barista-node-agent/src/db.rs) moves an operation along an edge of its
-- state machine, or leaves its outcome alone.
use Prim.Native.String.{String}
use text.Mathlib.Text.{◌==◌ as str_eq}
use text.Mathlib.TextEquality.{eq_iff}
use mathlib.Core.Path.{subst}
use barista_sh.Base.{
  Bool, true, false, ◌||◌, ◌==◌, Bool-cases, List, [], ◌∷◌, Option, none, some, any, All, In, ◌≡◌,
  inl, inr, refl, arith, ◌∙◌, ap, sym,
}
use barista_sh.Base.Int.{ℤ}
use barista_sh.Contract.{OperationState}
use barista_sh.Machine.Operation.{op_is_in_flight, op_is_settled}
use barista_sh.Journal.Table.{find, count, update, find-passes, only-hit}
use barista_sh.Journal.Rows.{
  OperationRow, StoredOperation, Journal, Submission, of_instance, of_op, of_key,
}
use barista_sh.Journal.Submit.{Request, submit_atomically}
use barista_sh.Journal.Submit.Verdict.{Verdict, submit-Verdict}
use barista_sh.Journal.Operations.{
  in_flight_ops, op_in, set_op_step, set_op_froze_workload, set_op_fork_mode, move_op,
  await_op_input, resume_op_from_input, finish_op_canceled, in_flight_ids, fail_inflight_ops,
  release_claims, claimed_row, Finish, finished_row, inactive, is_canceled, may_apply,
  finish_operation,
}
use barista_sh.Journal.Instances.{
  set_instance_state, issue_execution_epoch, set_instance_epoch, set_instance_ready,
  set_ttl_deadline, set_wake_at, point_at, unpoint,
}
use barista_sh.Journal.Steps.{
  Change, submits, steps, freezes, measures, parks, resumes, cancels, finishes, recovers, enters,
  issues, binds, readies, rearms, wakes, points, unpoints, opens, Reached,
}
use barista_sh.Journal.Invariant.{Sound}
use barista_sh.Journal.Invariant.Moves.{in_flight_ops-in_flight}
use barista_sh.Journal.Outcomes.{
  SameOutcome, Advanced, same_outcome, found-update, step-Advances, movable-legal, resume-legal,
  finished-legal, fail_all-found, settles, find-cases,
}
use barista_sh.Journal.Invariant.Preserved.{Reached-Sound}

unclashed :
    (c p : StoredOperation → Bool) (ops : List StoredOperation) (r : StoredOperation)
    → any c ops ≡ false
    → find p ops ≡ some r
    → c r ≡ false
unclashed c p [] r h e = absurd cc
unclashed c p (x ∷ ops) r h e = elim (Bool-cases (p x)) [
  | inl b ↦ ground (arith, b)
  | inr b ↦ unclashed c p ops r (ground arith) (ground (arith, b))
]

fresh_id :
    (op : OperationRow) (key id : String) (ops : List StoredOperation) (r : StoredOperation)
    → any (λ r. of_op op.op_id r || of_key key r) ops ≡ false
    → find (of_op id) ops ≡ some r
    → str_eq op.op_id id ≡ false
fresh_id op key id ops r h e = elim (Bool-cases (str_eq op.op_id id)) [
  | inr b ↦ b
  | inl b ↦ absurd (
      clash
        (subst (λ x. of_op x r ≡ true) (sym ((eq_iff op.op_id id).0 b))
          (find-passes (of_op id) ops r e))
        (unclashed (λ r. of_op op.op_id r || of_key key r) (of_op id) ops r h e))
]
  where
    clash : of_op op.op_id r ≡ true → of_op op.op_id r || of_key key r ≡ false → ⊥
    clash a b = ground arith

Verdict-Advances :
    (q : Request) (t now : ℤ) (j : Journal) (o : Option Submission) (k : Journal)
    → Verdict q t now j o k
    → (id : String) (r : StoredOperation) → find (of_op id) j.operations ≡ some r
    → Advanced id r k.operations
Verdict-Advances q t now j none k v id r e =
    subst (λ x. Advanced id r x) (sym (ap (λ x. x.operations) v)) (r, e, inl (same_outcome r.op))
Verdict-Advances q t now j (some (Submission.journaled p)) k v id r e =
    subst (λ x. Advanced id r x) (sym v.queued)
      (
        r,
        ground (arith, fresh_id q.op q.idempotency_key id j.operations r v.fresh e, e),
        inl (same_outcome r.op),
      )
Verdict-Advances q t now j (some (Submission.replay p)) k v id r e =
    subst (λ x. Advanced id r x) (sym (ap (λ x. x.operations) v.0)) (r, e, inl (same_outcome r.op))
Verdict-Advances q t now j (some Submission.conflict) k v id r e =
    subst (λ x. Advanced id r x) (sym (ap (λ x. x.operations) v.0)) (r, e, inl (same_outcome r.op))
Verdict-Advances q t now j (some Submission.rejected) k v id r e =
    subst (λ x. Advanced id r x) (sym (ap (λ x. x.operations) v.0)) (r, e, inl (same_outcome r.op))
Verdict-Advances q t now j (some Submission.claim_superseded) k v id r e =
    subst (λ x. Advanced id r x) (sym (ap (λ x. x.operations) v.0)) (r, e, inl (same_outcome r.op))

same_fields :
    (a b : OperationRow)
    → b.state ≡ a.state
    → b.error_reason ≡ a.error_reason
    → b.error_message ≡ a.error_message
    → b.degraded ≡ a.degraded
    → b.finished_at_ms ≡ a.finished_at_ms
    → SameOutcome a b
same_fields a b s r m d f = record {
  state = s;
  error_reason = r;
  error_message = m;
  degraded = d;
  finished_at_ms = f;
}

pub Outcome-trans : (a b c : OperationRow) → SameOutcome a b → SameOutcome b c → SameOutcome a c
Outcome-trans a b c x y = record {
  state = y.state ∙ x.state;
  error_reason = y.error_reason ∙ x.error_reason;
  error_message = y.error_message ∙ x.error_message;
  degraded = y.degraded ∙ x.degraded;
  finished_at_ms = y.finished_at_ms ∙ x.finished_at_ms;
}

let_go :
    (id i : String) (a : StoredOperation) (ops : List StoredOperation)
    → Advanced id a ops
    → Advanced id a (update (of_op i) inactive ops)
let_go id i a ops (s, at, adv) =
    elim (find-cases (of_op id) (of_op i) inactive ops s (λ r. refl) at) [
      | inl (h, found) ↦ (inactive s, found, adv)
      | inr (h, found) ↦ (s, found, adv)
    ]

finish-Advances :
    (q : Finish) (now : ℤ) (j : Journal) (id : String) (r : StoredOperation)
    → find (of_op id) j.operations ≡ some r
    → Advanced id r (finish_operation q now j).1.operations
unfolding finish_operation
finish-Advances q now j id r e =
    let p = op_in q.op_id in_flight_ops in
    let done = update p (finished_row q now) j.operations in
    let here =
      found-update id p (finished_row q now) j.operations r (λ r. ground arith)
        (λ r h. inr (finished-legal q now r h)) e in
    elim (Bool-cases (count p j.operations == 1)) [
      | inl c ↦ rw c here
      | inr c ↦ elim (Bool-cases (is_canceled (find (of_op q.op_id) done))) [
        | inr d ↦ rw (c, d) (r, e, inl (same_outcome r.op))
        | inl d ↦
            elim (Bool-cases (may_apply (find (of_instance q.instance_id) j.instances) q.state)) [
              | inr m ↦ rw (c, d, m) (r, e, inl (same_outcome r.op))
              | inl m ↦ rw (c, d, m) (let_go id q.op_id r done here)
            ]
      ]
    ]

selected :
    (id : String) (r : StoredOperation) (ops : List StoredOperation)
    → All (λ x. of_op id x ≡ true → x ≡ r) ops
    → In id (in_flight_ids ops)
    → op_is_in_flight r.op.state ≡ true
selected id r [] a m = absurd m
selected id r (x ∷ ops) (h, a) m = elim (Bool-cases (in_flight_ops x.op.state)) [
  | inl b ↦ elim (rw b at m) [
    | inl e ↦
        subst (λ y. op_is_in_flight y.op.state ≡ true) (h ((eq_iff x.op.op_id id).1 e))
          (in_flight_ops-in_flight x.op.state b)
    | inr m2 ↦ selected id r ops a m2
  ]
  | inr b ↦ selected id r ops a (rw b at m)
]

recover-Advances :
    (message : String) (now : ℤ) (j : Journal) (id : String) (r : StoredOperation)
    → Sound j.operations
    → find (of_op id) j.operations ≡ some r
    → Advanced id r (fail_inflight_ops message now j).operations
unfolding fail_inflight_ops op_is_settled
recover-Advances message now j id r s e =
    let (x, at, what) = fail_all-found (in_flight_ids j.operations) message now j id r e in
    (
      x,
      at,
      elim what [
        | inl same ↦ inl (subst (λ y. SameOutcome r.op y.op) (sym same) (same_outcome r.op))
        | inr (m, f) ↦ inr (
            settles r.op.state x.op.state
              (selected id r j.operations (only-hit (of_op id) j.operations r (s.one_id id) e) m)
              (ground (arith, f)))
      ],
    )

Change-Advances :
    {j k : Journal}
    → Sound j.operations
    → Change j k
    → (id : String) (r : StoredOperation) → find (of_op id) j.operations ≡ some r
    → Advanced id r k.operations
unfolding release_claims set_op_step set_op_froze_workload set_op_fork_mode move_op await_op_input
    resume_op_from_input finish_op_canceled set_instance_state issue_execution_epoch
    set_instance_epoch set_instance_ready set_ttl_deadline set_wake_at point_at unpoint
Change-Advances {j = j} s (submits q t now) id r e =
    Verdict-Advances q t now j (submit_atomically q t now j).0 (submit_atomically q t now j).1
      (submit-Verdict q t now j) id r e
Change-Advances {j = j} s (steps i step) id r e =
    found-update id (op_in i in_flight_ops) _ j.operations r (λ r. refl) (step-Advances i step) e
Change-Advances {j = j} s (freezes i) id r e =
    found-update id _ _ j.operations r (λ r. refl)
      (λ r h. inl (same_fields r.op _ refl refl refl refl refl)) e
Change-Advances {j = j} s (measures i mode) id r e =
    found-update id _ _ j.operations r (λ r. refl)
      (λ r h. inl (same_fields r.op _ refl refl refl refl refl)) e
Change-Advances {j = j} s (parks i prompt) id r e =
    found-update id _ _ j.operations r (λ r. refl)
      (λ r h. inr (movable-legal i OperationState.awaiting_input r h)) e
Change-Advances {j = j} s (resumes i step) id r e =
    found-update id _ _ j.operations r (λ r. refl) (λ r h. inr (resume-legal i r h)) e
Change-Advances {j = j} s (cancels i reason now) id r e =
    found-update id _ _ j.operations r (λ r. refl)
      (λ r h. inr (movable-legal i OperationState.canceled r h)) e
Change-Advances {j = j} s (finishes q now) id r e = finish-Advances q now j id r e
Change-Advances {j = j} s (recovers message now) id r e = recover-Advances message now j id r s e
Change-Advances {j = j} s opens id r e =
    found-update id (λ r. true) claimed_row j.operations r (λ r. refl)
      (λ r h. inl (same_fields r.op _ refl refl refl refl refl)) e
Change-Advances s (enters i t now) id r e = (r, e, inl (same_outcome r.op))
Change-Advances s issues id r e = (r, e, inl (same_outcome r.op))
Change-Advances s (binds i epoch now) id r e = (r, e, inl (same_outcome r.op))
Change-Advances s (rearms i d now) id r e = (r, e, inl (same_outcome r.op))
Change-Advances s (wakes i at now) id r e = (r, e, inl (same_outcome r.op))
Change-Advances s (points i sid now) id r e = (r, e, inl (same_outcome r.op))
Change-Advances s (unpoints sid) id r e = (r, e, inl (same_outcome r.op))
Change-Advances s (readies i ready now) id r e = (r, e, inl (same_outcome r.op))

-- Whatever method is called next on a journal that the node has reached, an operation in it stays
-- in the journal, and either its reported outcome is what it was or its state moved along an edge
-- of the operation state machine.
pub op_advances :
    {j k : Journal}
    → Reached j
    → Change j k
    → (id : String) (r : StoredOperation) → find (of_op id) j.operations ≡ some r
    → Advanced id r k.operations
op_advances x c id r e = Change-Advances (Reached-Sound x) c id r e
