-- ===== src/Journal/Outcomes.antt =====
-- How the methods of `Db` (crates/barista-node-agent/src/db.rs) move one operation.
use Prim.Native.String.{String}
use text.Mathlib.Text.{◌==◌ as str_eq}
use text.Mathlib.TextEquality.{eq_iff}
use barista_sh.Base.{
  Bool, true, false, if◌then◌else◌, Bool-cases, List, [], ◌∷◌, none, some, In, ◌≡◌, ◌⊎◌, inl, inr,
  refl, arith, ◌∙◌, ap, sym,
}
use barista_sh.Base.Int.{ℤ}
use barista_sh.Contract.{OperationState, ErrorReason, operation_state_eq}
use barista_sh.Machine.Operation.{op_is_in_flight, op_is_settled, op_can_transition}
use barista_sh.Journal.Table.{find, update, find-update, find-passes}
use barista_sh.Journal.Rows.{OperationRow, StoredOperation, Journal, of_op}
use barista_sh.Journal.Operations.{
  in_flight_ops, ops_movable_to, op_in, set_step, failed_row, finish_op_failed, fail_all, Finish,
  finished_row,
}
use barista_sh.Journal.Invariant.{op_states_where-eq}
use barista_sh.Journal.Invariant.Moves.{in_flight_ops-in_flight}

-- What a caller is told of a settled operation.
pub record SameOutcome (a b : OperationRow) : Type 0 where
  pub state : b.state ≡ a.state
  pub error_reason : b.error_reason ≡ a.error_reason
  pub error_message : b.error_message ≡ a.error_message
  pub degraded : b.degraded ≡ a.degraded
  pub finished_at_ms : b.finished_at_ms ≡ a.finished_at_ms

-- An operation moved along an edge of the state machine, or its outcome is what it was.
abbrev pub Advances : OperationRow → OperationRow → Type 0
Advances a b = SameOutcome a b ⊎ (op_can_transition a.state b.state ≡ true)

-- What a method did to an operation.
abbrev pub Advanced : String → StoredOperation → List StoredOperation → Type 0
Advanced id r ops = (s : StoredOperation) × (find (of_op id) ops ≡ some s) × Advances r.op s.op

pub same_outcome : (a : OperationRow) → SameOutcome a a
same_outcome a = record {
  state = refl;
  error_reason = refl;
  error_message = refl;
  degraded = refl;
  finished_at_ms = refl;
}

pub found-update :
    (id : String) (p : StoredOperation → Bool) (f : StoredOperation → StoredOperation)
    (ops : List StoredOperation) (r : StoredOperation)
    → ((r : StoredOperation) → (f r).op.op_id ≡ r.op.op_id)
    → ((r : StoredOperation) → p r ≡ true → Advances r.op (f r).op)
    → find (of_op id) ops ≡ some r
    → Advanced id r (update p f ops)
found-update id p f ops r same adv e = elim (Bool-cases (p r)) [
  | inl h ↦ (f r, moved h, adv r h)
  | inr h ↦ (r, kept h, inl (same_outcome r.op))
]
  where
    all :
        find (of_op id) (update p f ops)
        ≡ elim (find (of_op id) ops) [ none ↦ none | some r ↦ some (if p r then f r else r) ]
    all = find-update (of_op id) p f ops (λ r. ap (λ x. str_eq x id) (same r))

    moved : p r ≡ true → find (of_op id) (update p f ops) ≡ some (f r)
    moved h = ground (arith, all)

    kept : p r ≡ false → find (of_op id) (update p f ops) ≡ some r
    kept h = ground (arith, all)

to_running :
    (s : OperationState)
    → op_is_in_flight s ≡ true
    → (OperationState.running ≡ s) ⊎ (op_can_transition s OperationState.running ≡ true)
unfolding op_is_in_flight op_can_transition
to_running OperationState.running h = inl refl
to_running OperationState.queued h = inr refl
to_running OperationState.awaiting_input h = inr refl
to_running _ h = absurd cc

pub settles :
    (s t : OperationState)
    → op_is_in_flight s ≡ true
    → op_is_settled t ≡ true
    → op_can_transition s t ≡ true
unfolding op_is_in_flight op_can_transition
settles s t h k = ground arith

pub step-Advances :
    (id step : String) (r : StoredOperation)
    → op_in id in_flight_ops r ≡ true
    → Advances r.op (set_step OperationState.running step r.op)
step-Advances id step r h =
    elim (to_running r.op.state (in_flight_ops-in_flight r.op.state (ground arith))) [
      | inl e ↦ inl (record {
        state = e;
        error_reason = refl;
        error_message = refl;
        degraded = refl;
        finished_at_ms = refl;
      })
      | inr e ↦ inr e
    ]

pub movable-legal :
    (id : String) (to : OperationState) (r : StoredOperation)
    → op_in id (ops_movable_to to) r ≡ true
    → op_can_transition r.op.state to ≡ true
unfolding ops_movable_to
movable-legal id to r h =
    ground (arith, op_states_where-eq (λ from. op_can_transition from to) r.op.state)

pub resume-legal :
    (id : String) (r : StoredOperation)
    → op_in id (λ s. operation_state_eq s OperationState.awaiting_input) r ≡ true
    → op_can_transition r.op.state OperationState.running ≡ true
unfolding op_can_transition
resume-legal id r h = ground arith

pub finished-legal :
    (q : Finish) (now : ℤ) (r : StoredOperation)
    → op_in q.op_id in_flight_ops r ≡ true
    → op_can_transition r.op.state (finished_row q now r).op.state ≡ true
unfolding op_is_settled
finished-legal q now r h =
    settles r.op.state (finished_row q now r).op.state
      (in_flight_ops-in_flight r.op.state (ground arith)) (ground arith)

pub find-cases :
    (k p : StoredOperation → Bool) (f : StoredOperation → StoredOperation)
    (ops : List StoredOperation) (r : StoredOperation)
    → ((r : StoredOperation) → k (f r) ≡ k r)
    → find k ops ≡ some r
    → ((p r ≡ true) × (find k (update p f ops) ≡ some (f r)))
      ⊎ ((p r ≡ false) × (find k (update p f ops) ≡ some r))
find-cases k p f ops r h e = elim (Bool-cases (p r)) [
  | inl b ↦ inl (b, ground (arith, find-update k p f ops h))
  | inr b ↦ inr (b, ground (arith, find-update k p f ops h))
]

same_id : (i id : String) (r : StoredOperation) → of_op i r ≡ true → of_op id r ≡ true → i ≡ id
same_id i id r a b = sym ((eq_iff r.op.op_id i).0 a) ∙ (eq_iff r.op.op_id id).0 b

-- What the failure of a list of operations did to one of them.
pub fail_all-found :
    (ids : List String) (message : String) (now : ℤ) (j : Journal) (id : String)
    (r : StoredOperation)
    → find (of_op id) j.operations ≡ some r
    → (s : StoredOperation) × (find (of_op id) (fail_all ids message now j).operations ≡ some s)
      × ((s ≡ r) ⊎ (In id ids × (s.op.state ≡ OperationState.failed)))
unfolding finish_op_failed
fail_all-found [] message now j id r e = (r, e, inl refl)
fail_all-found (i ∷ ids) message now j id r e =
    elim (find-cases (of_op id) (of_op i) (failed_row ErrorReason.unspecified message now)
      j.operations r (λ r. refl) e) [
        | inl (h, found) ↦
            let (s, at, what) =
              fail_all-found ids message now
                (finish_op_failed i ErrorReason.unspecified message now j) id
                (failed_row ErrorReason.unspecified message now r) found in
            (
              s,
              at,
              inr (elim what [
                | inl same ↦ (inl (same_id i id r h (find-passes (of_op id) j.operations r e)), cc)
                | inr (m, f) ↦ (inr m, f)
              ]),
            )
        | inr (h, found) ↦
            let (s, at, what) =
              fail_all-found ids message now
                (finish_op_failed i ErrorReason.unspecified message now j) id r found in
            (s, at, elim what [ inl same ↦ inl same | inr (m, f) ↦ inr (inr m, f) ])
      ]
