-- ===== src/Journal/Invariant.antt =====
-- What the operations of a journal keep (crates/barista-node-agent/src/db.rs), and the updates that
-- keep it.
pub mod Moves
pub mod Preserved
use Prim.Native.String.{String}
use text.Mathlib.Text.{◌==◌ as str_eq}
use text.Mathlib.TextEquality.{eq_iff}
use mathlib.Core.Path.{subst}
use barista_sh.Base.{
  ℕ, suc, ◌≤◌, Option-cases, Bool, true, false, ◌&&◌, ◌||◌, ◌==◌, if◌then◌else◌, Bool-cases, List,
  [], ◌∷◌, Option, none, some, any, All, ◌≡◌, ◌⊎◌, inl, inr, refl, arith, ◌∙◌, ap, sym,
}
use barista_sh.Base.Int.{ℤ}
use barista_sh.Contract.{InstanceState, OperationState, ErrorReason, operation_state_eq}
use barista_sh.Machine.Operation.{op_is_in_flight, op_is_settled, op_can_transition}
use barista_sh.Journal.Table.{
  find, count, update, count-update, All-update, All-update-under, only-hit, All-weaken,
}
use barista_sh.Journal.Rows.{
  ForkMode, OperationRow, StoredOperation, Journal, Submission, of_instance, of_op, of_key,
}
use barista_sh.Journal.Submit.{Request, active_on, queued_row, submit_atomically}
use barista_sh.Journal.Submit.Accepted.{Accepted}
use barista_sh.Journal.Submit.Verdict.{Verdict, submit-Verdict}
use barista_sh.Journal.Operations.{
  op_states_where, in_flight_ops, ops_movable_to, op_in, on_ops, set_op, set_step, set_op_step,
  set_op_froze_workload, set_op_fork_mode, failed_row, finish_op_failed, move_op, await_op_input,
  resume_op_from_input, canceled_row, finish_op_canceled, in_flight_ids, fail_all,
  fail_inflight_ops, Finish, finished_row, inactive, is_canceled, may_apply, finish_operation,
}
use barista_sh.Journal.Instances.{
  set_instance_state, issue_execution_epoch, set_instance_epoch, set_instance_ready,
}
use barista_sh.Journal.Steps.{
  Change, submits, steps, freezes, measures, parks, resumes, cancels, finishes, recovers, enters,
  issues, binds, readies, Reached, begins, goes_on,
}

pub op_states_where-eq :
    (keep : OperationState → Bool) (s : OperationState) → op_states_where keep s ≡ keep s
unfolding op_states_where
op_states_where-eq keep OperationState.unspecified = ground arith
op_states_where-eq keep _ = ground arith

-- The executor of an operation in flight still owns it.
abbrev pub Owns : StoredOperation → Type 0
Owns r = op_is_in_flight r.op.state ≡ true → r.executor_active ≡ true

pub record Sound (ops : List StoredOperation) : Type 0 where
  pub one_active : (id : String) → count (active_on id) ops ≤ 1
  pub one_id : (id : String) → count (of_op id) ops ≤ 1
  pub one_key : (key : String) → count (of_key key) ops ≤ 1
  pub owned : All Owns ops

-- An update that leaves the keys alone, activates nothing, and keeps `Owns` on the rows it hits.
pub record Tame (p : StoredOperation → Bool) (f : StoredOperation → StoredOperation) : Type 0 where
  pub same_op : (r : StoredOperation) → (f r).op.op_id ≡ r.op.op_id
  pub same_key : (r : StoredOperation) → (f r).idempotency_key ≡ r.idempotency_key
  pub same_instance : (r : StoredOperation) → (f r).op.instance_id ≡ r.op.instance_id
  pub calm : (r : StoredOperation) → (f r).executor_active ≡ true → r.executor_active ≡ true
  pub owned : (r : StoredOperation) → p r ≡ true → Owns r → Owns (f r)

pub update-Sound :
    (p : StoredOperation → Bool) (f : StoredOperation → StoredOperation)
    (ops : List StoredOperation)
    → Tame p f
    → Sound ops
    → Sound (update p f ops)
update-Sound p f ops tame s = record {
  one_active = λ id. omega (
    arith,
    s.one_active id,
    count-update (active_on id) p f ops (λ r h. ground (arith, tame.same_instance r, tame.calm r)),
  );
  one_id = λ id.
      omega (
        arith,
        s.one_id id,
        count-update (of_op id) p f ops (λ r h. ground (arith, tame.same_op r)),
      );
  one_key = λ key. omega (
    arith,
    s.one_key key,
    count-update (of_key key) p f ops (λ r h. ground (arith, tame.same_key r)),
  );
  owned = All-update Owns p f ops tame.owned s.owned;
}
