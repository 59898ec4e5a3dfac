-- ===== src/Journal/Submit/Delivered.antt =====
-- `Db::submit_atomically` (crates/barista-node-agent/src/db.rs) keeps its promise.
use Prim.Native.String.{String}
use barista_sh.Base.{◌≤◌, false, List, [], ◌∷◌, Option, none, some, All, ◌≡◌, ◌≢◌, any, arith}
use barista_sh.Base.Int.{ℤ}
use barista_sh.Contract.{InstanceState}
use barista_sh.Contract.Spec.{InstanceSpec}
use barista_sh.Journal.Table.{find, count, update}
use barista_sh.Journal.Rows.{Identity, InstanceRow, Journal, Claim, Submission, of_instance, of_key}
use barista_sh.Journal.Deadline.{cleared, claimable}
use barista_sh.Journal.Submit.{Request, queued_row, created_row, moved, submit_atomically}
use barista_sh.Journal.Submit.Accepted.{Accepted}
use barista_sh.Journal.Submit.Refused.{Explains}
use barista_sh.Journal.Submit.Verdict.{Verdict, submit-Verdict}
use barista_sh.Journal.Submit.Promised.{
  Holds, Due, Journaled, queued_row-Queued, none_active, Holds-claimable,
}
use barista_sh.Journal.Submit.Delivering.{ConsumesBy, WritesBy, claimed, elsewhere, entered}

Accepted-Journaled :
    (q : Request) (t now : ℤ) (j k : Journal) (s : InstanceState)
    → Accepted q t now j s k
    → Journaled q t now j s k
Accepted-Journaled q t now j k s a = record {
  fresh_key = a.fresh_key;
  idle = none_active q.op.instance_id j.operations a.idle;
  plans = a.plans;
  claims =
      claimed q t now s j.instances a.left k.instances q.claim q.create_spec
        (consumes q.claim a.consumes) (writes q.create_spec a.writes);
  row = queued_row q.op q.idempotency_key;
  queued = a.queued;
  is_queued = queued_row-Queued q;
  enters =
      entered q t now s j.instances a.left k.instances q.claim q.create_spec
        (consumes q.claim a.consumes) (writes q.create_spec a.writes) a.plans;
  others = λ id apart.
      elsewhere q t now s j.instances a.left k.instances q.claim q.create_spec id
        (consumes q.claim a.consumes) (writes q.create_spec a.writes) apart;
  epochs = a.epochs;
}
  where
    consumes :
        (o : Option Claim)
        → (elim o as (λ _. Type 0) [
          | none ↦ a.left ≡ j.instances
          | some c ↦
              (count (claimable q.op.instance_id c t) j.instances ≡ 1)
              × (a.left ≡ update (claimable q.op.instance_id c t) (cleared c t) j.instances)
        ])
        → ConsumesBy q t now s j.instances a.left k.instances o
    consumes none h = h
    consumes (some c) h = h

    writes :
        (o : Option InstanceSpec)
        → (elim o as (λ _. Type 0) [
          | some spec ↦
              (any (of_instance spec.instance_id) a.left ≡ false)
              × (identity : Option Identity) × (q.mint_identity spec.instance_id ≡ some identity)
              × (k.instances ≡ created_row q spec identity now ∷ a.left)
          | none ↦ k.instances ≡ update (of_instance q.op.instance_id) (moved s now) a.left
        ])
        → WritesBy q t now s j.instances a.left k.instances o
    writes none h = h
    writes (some spec) h = h

at_most :
    (id : String) (c : Claim) (t : ℤ) (rows : List InstanceRow)
    → count (claimable id c t) rows ≤ count (of_instance id) rows
at_most id c t [] = omega arith
at_most id c t (r ∷ rows) = ground (arith, at_most id c t rows)

none-Holds :
    (id : String) (c : Claim) (t : ℤ) (rows : List InstanceRow)
    → Due c t
    → count (claimable id c t) rows ≡ 0
    → All (λ r. ¬ Holds id c r) rows
none-Holds id c t [] due e = tt
none-Holds id c t (r ∷ rows) due e = (
  λ h. ground (arith, Holds-claimable id c t r due h, e),
  none-Holds id c t rows due (ground (arith, e)),
)

superseded :
    (id : String) (c : Claim) (t : ℤ) (rows : List InstanceRow)
    → Due c t
    → count (of_instance id) rows ≤ 1
    → count (claimable id c t) rows ≢ 1
    → All (λ r. ¬ Holds id c r) rows
superseded id c t rows due one many =
    none-Holds id c t rows due (omega (arith, at_most id c t rows, one, many))

-- Why a submission that is not journaled was turned down.
abbrev pub Because : Request → ℤ → Journal → Submission → Type 0
Because q t j Submission.claim_superseded =
    (c : Claim) × (q.claim ≡ some c)
    × (Due c t
        → count (of_instance q.op.instance_id) j.instances ≤ 1
        → All (λ r. ¬ Holds q.op.instance_id c r) j.instances)
    × (find (of_key q.idempotency_key) j.operations ≡ none)
    × All (λ r. r.op.instance_id ≡ q.op.instance_id → r.executor_active ≡ false) j.operations
Because q t j v = Explains q t j v

-- What a submission promises, for what it returned.
abbrev pub Promise : Request → ℤ → ℤ → Journal → Option Submission → Journal → Type 0
Promise q t now j none k = (k ≡ j)
Promise q t now j (some (Submission.journaled s)) k = Journaled q t now j s k
Promise q t now j (some v) k = (k ≡ j) × Because q t j v

promised :
    (q : Request) (t now : ℤ) (j k : Journal) (o : Option Submission)
    → Verdict q t now j o k
    → Promise q t now j o k
promised q t now j k none v = v
promised q t now j k (some (Submission.journaled s)) v = Accepted-Journaled q t now j k s v
promised q t now j k (some (Submission.replay o)) v = v
promised q t now j k (some Submission.conflict) v = v
promised q t now j k (some Submission.rejected) v = v
promised q t now j k (some Submission.claim_superseded) (e, (c, is, many, fresh, idle)) = (
  e,
  (
    c,
    is,
    λ due one. superseded q.op.instance_id c t j.instances due one many,
    fresh,
    none_active q.op.instance_id j.operations idle,
  ),
)

-- A submission that is journaled had a fresh key, no operation on its instance with an executor, and
-- a legal plan. The deadline it claims was held by its instance and had come, and is held no longer;
-- the operation is queued first, with its executor; its instance was made as the specification says,
-- in CREATING, or moved to the planned state with its specification, token, latest snapshot and epoch
-- kept; every other instance, and the counter of epochs, is as it was. Every other result leaves the
-- journal as it was: a replay hands back the operation that has the key; a conflict has an operation
-- with an executor on the instance; a rejection an instance that exists, is absent or has no legal
-- plan; and a superseded claim a deadline that has not come or that the instance, where it has one
-- row, does not hold.
pub submit_delivers :
    (q : Request) (t now : ℤ) (j : Journal)
    → Promise q t now j (submit_atomically q t now j).0 (submit_atomically q t now j).1
submit_delivers q t now j =
    promised q t now j (submit_atomically q t now j).1 (submit_atomically q t now j).0
      (submit-Verdict q t now j)
