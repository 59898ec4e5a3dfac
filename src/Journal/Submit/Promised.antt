-- ===== src/Journal/Submit/Promised.antt =====
-- What `Db::submit_atomically` (crates/barista-node-agent/src/db.rs) promises its caller, in terms of
-- the rows before and after it.
use Prim.Native.String.{String}
use mathlib.Core.Path.{subst}
use text.Mathlib.TextEquality.{eq_iff}
use barista_sh.Base.{
  Bool, true, false, Bool-cases, List, [], ◌∷◌, Option, Option-cases, none, some, All, In, ◌≡◌, ◌≢◌,
  inl, inr, refl, ◌∙◌, ap, arith,
}
use barista_sh.Base.Int.{ℤ, eq_of_parts, ◌≤ℤ◌}
use barista_sh.Contract.{InstanceState}
use barista_sh.Contract.Spec.{InstanceSpec}
use barista_sh.Journal.Table.{find, count}
use barista_sh.Journal.Rows.{StoredOperation, InstanceRow, Journal, Claim, of_instance, of_key}
use barista_sh.Journal.Deadline.{claimable}
use barista_sh.Journal.Submit.{Request, active_on, queued_row}
use barista_sh.Journal.Submit.Accepted.{Plans}

-- The instance still holds the deadline that a claim observed.
abbrev pub Holds : String → Claim → InstanceRow → Type 0
Holds id (Claim.ttl_expiry d) r = (r.instance_id ≡ id) × (r.ttl_deadline_ms ≡ some d)
Holds id (Claim.wake d) r = (r.instance_id ≡ id) × (r.wake_at_ms ≡ some d)

-- The deadline that a claim observed has come.
abbrev pub Due : Claim → ℤ → Type 0
Due (Claim.ttl_expiry d) t = d ≤ℤ t
Due (Claim.wake d) t = d ≤ℤ t

-- The operation is queued, with its executor.
pub record Queued (q : Request) (r : StoredOperation) : Type 0 where
  pub op_id : r.op.op_id ≡ q.op.op_id
  pub kind : r.op.kind ≡ q.op.kind
  pub instance_id : r.op.instance_id ≡ q.op.instance_id
  pub payload : r.op.payload ≡ q.op.payload
  pub state : r.op.state ≡ q.op.state
  pub key : r.idempotency_key ≡ q.idempotency_key
  pub active : r.executor_active ≡ true
  pub unfinished : r.op.finished_at_ms ≡ none

-- The row of an instance that a submission made.
pub record Made (q : Request) (spec : InstanceSpec) (now : ℤ) (r : InstanceRow) : Type 0 where
  pub same_spec : r.spec ≡ spec
  pub state : r.state ≡ InstanceState.creating
  pub unready : r.ready ≡ false
  pub token : r.guest_token ≡ q.guest_token
  pub created : r.created_at_ms ≡ now
  pub no_deadline : r.ttl_deadline_ms ≡ none
  pub no_alarm : r.wake_at_ms ≡ none
  pub no_snapshot : r.latest_snapshot_id ≡ ""
  pub no_epoch : r.execution_epoch ≡ 0

-- The row of an instance that a submission moved.
pub record Moved (s : InstanceState) (now : ℤ) (before after : InstanceRow) : Type 0 where
  pub state : after.state ≡ s
  pub at : after.updated_at_ms ≡ now
  pub same_spec : after.spec ≡ before.spec
  pub same_token : after.guest_token ≡ before.guest_token
  pub same_snapshot : after.latest_snapshot_id ≡ before.latest_snapshot_id
  pub same_epoch : after.execution_epoch ≡ before.execution_epoch

-- The instance of a submission in the state planned.
abbrev pub Entered :
    Request → Option InstanceSpec → InstanceState → ℤ → List InstanceRow → List InstanceRow → Type 0
Entered q (some spec) s now rows final =
    (r : InstanceRow) × (find (of_instance spec.instance_id) final ≡ some r) × Made q spec now r
Entered q none s now rows final =
    (r u : InstanceRow) × (find (of_instance q.op.instance_id) rows ≡ some r)
    × (find (of_instance q.op.instance_id) final ≡ some u)
    × Moved s now r u

abbrev pub Elsewhere : Request → Option InstanceSpec → String → Type 0
Elsewhere q none id = id ≢ q.op.instance_id
Elsewhere q (some spec) id = (id ≢ q.op.instance_id) × (id ≢ spec.instance_id)

-- The submission was journaled in the state `s`, and turned `j` into `k`.
pub record Journaled (q : Request) (t now : ℤ) (j : Journal) (s : InstanceState) (k : Journal)
    : Type 0 where
  pub fresh_key : find (of_key q.idempotency_key) j.operations ≡ none
  pub idle : All (λ r. r.op.instance_id ≡ q.op.instance_id → r.executor_active ≡ false) j.operations
  pub plans : Plans q j s
  pub claims :
      (c : Claim)
      → q.claim ≡ some c
      → ((r : InstanceRow) × In r j.instances × Holds q.op.instance_id c r × Due c t)
        × All (λ r. ¬ Holds q.op.instance_id c r) k.instances
  pub row : StoredOperation
  pub queued : k.operations ≡ row ∷ j.operations
  pub is_queued : Queued q row
  pub enters : Entered q q.create_spec s now j.instances k.instances
  pub others :
      (id : String)
      → Elsewhere q q.create_spec id
      → find (of_instance id) k.instances ≡ find (of_instance id) j.instances
  pub epochs : k.next_execution_epoch ≡ j.next_execution_epoch

pub queued_row-Queued : (q : Request) → Queued q (queued_row q.op q.idempotency_key)
queued_row-Queued q = record {
  op_id = refl;
  kind = refl;
  instance_id = refl;
  payload = refl;
  state = refl;
  key = refl;
  active = refl;
  unfinished = refl;
}

pub none_active :
    (id : String) (rs : List StoredOperation)
    → count (active_on id) rs ≡ 0
    → All (λ r. r.op.instance_id ≡ id → r.executor_active ≡ false) rs
none_active id [] e = tt
none_active id (r ∷ rs) e = (
  λ h. ground (arith, e, (eq_iff r.op.instance_id id).1 h),
  none_active id rs (ground (arith, e)),
)

pub claimable-Holds :
    (id : String) (c : Claim) (t : ℤ) (r : InstanceRow)
    → claimable id c t r ≡ true
    → Holds id c r × Due c t
claimable-Holds id (Claim.ttl_expiry d) t r h = elim (Option-cases r.ttl_deadline_ms) [
  | inl n ↦ absurd (ground (arith, n))
  | inr (e, n) ↦
      let same : e ≡ d = eq_of_parts e d (ground (arith, n)) in
      (
        ((eq_iff r.instance_id id).0 (ground arith), n ∙ ap (λ z. some z) same),
        subst (λ z. z ≤ℤ t) same (ground (arith, n)),
      )
]
claimable-Holds id (Claim.wake d) t r h = elim (Option-cases r.wake_at_ms) [
  | inl n ↦ absurd (ground (arith, n))
  | inr (e, n) ↦
      let same : e ≡ d = eq_of_parts e d (ground (arith, n)) in
      (
        ((eq_iff r.instance_id id).0 (ground arith), n ∙ ap (λ z. some z) same),
        subst (λ z. z ≤ℤ t) same (ground (arith, n)),
      )
]

pub Holds-claimable :
    (id : String) (c : Claim) (t : ℤ) (r : InstanceRow)
    → Due c t
    → Holds id c r
    → claimable id c t r ≡ true
Holds-claimable id (Claim.ttl_expiry d) t r due (i, h) =
    ground (arith, (eq_iff r.instance_id id).1 i, h, due)
Holds-claimable id (Claim.wake d) t r due (i, h) =
    ground (arith, (eq_iff r.instance_id id).1 i, h, due)

pub hit :
    (p : InstanceRow → Bool) (rs : List InstanceRow)
    → count p rs ≡ 1
    → (r : InstanceRow) × In r rs × (p r ≡ true)
hit p [] e = absurd (omega (arith, e))
hit p (r ∷ rs) e = elim (Bool-cases (p r)) [
  | inl t ↦ (r, inl refl, t)
  | inr f ↦ let (s, i, h) = hit p rs (ground (arith, e, f)) in (s, inr i, h)
]
