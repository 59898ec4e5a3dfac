-- ===== src/Journal/Settled.antt =====
-- A settled operation keeps its outcome through everything that the methods of `Db`
-- (crates/barista-node-agent/src/db.rs) do.
use Prim.Native.String.{String}
use mathlib.Core.Path.{subst}
use barista_sh.Base.{true, some, ◌≡◌, inl, inr, arith, sym}
use barista_sh.Machine.Operation.{op_is_settled, op_can_transition}
use barista_sh.Journal.Table.{find}
use barista_sh.Journal.Rows.{OperationRow, StoredOperation, Journal, of_op}
use barista_sh.Journal.Steps.{Change, Reached, goes_on}
use barista_sh.Journal.Outcomes.{SameOutcome, Advances, same_outcome}
use barista_sh.Journal.Advances.{Outcome-trans, op_advances}

-- What a node does to a journal from then on.
pub data Later (j : Journal) : Journal → Type 0 where
  now : Later j j
  next : {k l : Journal} → Later j k → Change k l → Later j l

Later-Reached : {j k : Journal} → Reached j → Later j k → Reached k
Later-Reached x now = x
Later-Reached x (next l c) = goes_on (Later-Reached x l) c

settled-Advances :
    (a b : OperationRow) → op_is_settled a.state ≡ true → Advances a b → SameOutcome a b
unfolding op_can_transition
settled-Advances a b h (inl s) = s
settled-Advances a b h (inr e) = absurd (ground arith)

-- Once an operation of a reached journal is settled, the outcome that a caller reads - its state,
-- its error, what it downgraded and when it finished - is the same after any number of further
-- calls, and the operation is never lost.
pub settled_outcome_kept :
    {j k : Journal}
    → Reached j
    → Later j k
    → (id : String) (r : StoredOperation) → find (of_op id) j.operations ≡ some r
    → op_is_settled r.op.state ≡ true
    → (s : StoredOperation) × (find (of_op id) k.operations ≡ some s) × SameOutcome r.op s.op
settled_outcome_kept x now id r e h = (r, e, same_outcome r.op)
settled_outcome_kept x (next l c) id r e h =
    let (s, at, same) = settled_outcome_kept x l id r e h in
    let (u, found, adv) = op_advances (Later-Reached x l) c id s at in
    (
      u,
      found,
      Outcome-trans r.op s.op u.op same
          (settled-Advances s.op u.op (subst (λ y. op_is_settled y ≡ true) (sym same.state) h) adv),
    )
