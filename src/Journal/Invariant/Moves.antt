-- ===== src/Journal/Invariant/Moves.antt =====
-- The row updates of crates/barista-node-agent/src/db.rs that keep the invariant on operations.
use Prim.Native.String.{String}
use barista_sh.Base.{Option-cases, Bool, true, false, List, ◌≡◌, inl, inr, refl, arith, ◌∙◌, sym}
use barista_sh.Base.Int.{ℤ}
use barista_sh.Contract.{OperationState, ErrorReason, operation_state_eq}
use barista_sh.Machine.Operation.{op_is_in_flight, op_can_transition}
use barista_sh.Journal.Table.{find, update, count-update, All-update-under, only-hit, All-weaken}
use barista_sh.Journal.Rows.{ForkMode, StoredOperation, of_op, of_key}
use barista_sh.Journal.Submit.{active_on}
use barista_sh.Journal.Operations.{
  in_flight_ops, ops_movable_to, op_in, set_op, set_step, failed_row, canceled_row, Finish,
  finished_row, inactive, is_canceled,
}
use barista_sh.Journal.Invariant.{op_states_where-eq, Owns, Sound, Tame}

guard-in_flight :
    (id : String) (g keep : OperationState → Bool) (r : StoredOperation)
    → ((s : OperationState) → g s ≡ true → op_is_in_flight s ≡ true)
    → op_in id g r ≡ true
    → Owns r
    → r.executor_active ≡ true
guard-in_flight id g keep r h m o = o (h r.op.state (ground arith))

pub movable-in_flight :
    (to s : OperationState) → ops_movable_to to s ≡ true → op_is_in_flight s ≡ true
unfolding ops_movable_to op_is_in_flight op_can_transition
movable-in_flight to s h = ground (arith, op_states_where-eq (λ from. op_can_transition from to) s)

pub in_flight_ops-in_flight :
    (s : OperationState) → in_flight_ops s ≡ true → op_is_in_flight s ≡ true
unfolding in_flight_ops
in_flight_ops-in_flight s h = sym (op_states_where-eq op_is_in_flight s) ∙ h

pub in_flight-listed : (s : OperationState) → op_is_in_flight s ≡ true → in_flight_ops s ≡ true
unfolding in_flight_ops
in_flight-listed s h = op_states_where-eq op_is_in_flight s ∙ h

pub awaiting-in_flight :
    (s : OperationState)
    → operation_state_eq s OperationState.awaiting_input ≡ true
    → op_is_in_flight s ≡ true
unfolding op_is_in_flight
awaiting-in_flight s h = ground arith

-- A new state for an operation in flight, whose executor keeps it.
pub step-Tame :
    (id : String) (g : OperationState → Bool) (to : OperationState) (step : String)
    → ((s : OperationState) → g s ≡ true → op_is_in_flight s ≡ true)
    → Tame (op_in id g) (set_op (set_step to step))
step-Tame id g to step h = record {
  same_op = λ r. refl;
  same_key = λ r. refl;
  same_instance = λ r. refl;
  calm = λ r a. a;
  owned = λ r m o x. guard-in_flight id g g r h m o;
}

pub freeze-Tame : (id : String) → Tame (of_op id) (set_op (λ o. record o { froze_workload = true }))
freeze-Tame id = record {
  same_op = λ r. refl;
  same_key = λ r. refl;
  same_instance = λ r. refl;
  calm = λ r a. a;
  owned = λ r m o. o;
}

pub mode-Tame :
    (id : String) (mode : ForkMode)
    → Tame (of_op id) (set_op (λ o. record o { actual_fork_mode = mode }))
mode-Tame id mode = record {
  same_op = λ r. refl;
  same_key = λ r. refl;
  same_instance = λ r. refl;
  calm = λ r a. a;
  owned = λ r m o. o;
}

pub failed-Tame :
    (id : String) (reason : ErrorReason) (message : String) (now : ℤ)
    → Tame (of_op id) (failed_row reason message now)
unfolding op_is_in_flight
failed-Tame id reason message now = record {
  same_op = λ r. refl;
  same_key = λ r. refl;
  same_instance = λ r. refl;
  calm = λ r a. cc;
  owned = λ r m o x. cc;
}

pub canceled-Tame :
    (id reason : String) (now : ℤ) (p : StoredOperation → Bool) → Tame p (canceled_row reason now)
unfolding op_is_in_flight
canceled-Tame id reason now p = record {
  same_op = λ r. refl;
  same_key = λ r. refl;
  same_instance = λ r. refl;
  calm = λ r a. ground arith;
  owned = λ r m o x. cc;
}

pub finished-Tame :
    (q : Finish) (now : ℤ) (p : StoredOperation → Bool) → Tame p (finished_row q now)
unfolding op_is_in_flight
finished-Tame q now p = record {
  same_op = λ r. ground arith;
  same_key = λ r. ground arith;
  same_instance = λ r. ground arith;
  calm = λ r a. ground arith;
  owned = λ r m o x. ground arith;
}

canceled_rests :
    (t : OperationState)
    → operation_state_eq t OperationState.canceled ≡ true
    → op_is_in_flight t ≡ false
unfolding op_is_in_flight
canceled_rests t h = ground arith

-- The executor lets go of an operation that is canceled.
pub inactive-Sound :
    (id : String) (ops : List StoredOperation)
    → is_canceled (find (of_op id) ops) ≡ true
    → Sound ops
    → Sound (update (of_op id) inactive ops)
inactive-Sound id ops c s = record {
  one_active = λ i. omega (
    arith,
    s.one_active i,
    count-update (active_on i) (of_op id) inactive ops (λ r h. ground arith),
  );
  one_id =
      λ i. omega (arith, s.one_id i, count-update (of_op i) (of_op id) inactive ops (λ r h. h));
  one_key =
      λ k. omega (arith, s.one_key k, count-update (of_key k) (of_op id) inactive ops (λ r h. h));
  owned =
      All-update-under Owns NotInFlight (of_op id) inactive ops (λ r h n o x. absurd (cc (n h)))
        (elim (Option-cases (find (of_op id) ops)) [
          | inl n ↦ absurd (ground (arith, n))
          | inr (x, n) ↦
              All-weaken (λ r. of_op id r ≡ true → r ≡ x) NotInFlight ops
                (λ r k h. canceled_rests r.op.state (ground (arith, n, k h)))
                (only-hit (of_op id) ops x (s.one_id id) n)
        ])
        s.owned;
}
  where
    NotInFlight : StoredOperation → Type 0
    NotInFlight r = of_op id r ≡ true → op_is_in_flight r.op.state ≡ false

pub not_in_flight : (s : OperationState) → in_flight_ops s ≡ false → op_is_in_flight s ≡ false
unfolding in_flight_ops
not_in_flight s h = sym (op_states_where-eq op_is_in_flight s) ∙ h
