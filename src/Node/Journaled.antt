-- ===== src/Node/Journaled.antt =====
-- What a submission that was journaled leaves to its executor (`submit_claiming` of
-- crates/barista-node-agent/src/ops.rs).
use Prim.Native.String.{String}
use mathlib.Core.Path.{subst}
use text.Mathlib.TextPositions.{eq_refl}
use barista_sh.Base.{
  ◌≤◌, Bool, true, false, ◌||◌, Bool-cases, Option, none, some, List, [], ◌∷◌, any, if◌then◌else◌,
  ◌≡◌, ◌⊎◌, inl, inr, refl, sym, ◌∙◌, ap, arith,
}
use barista_sh.Base.Int.{ℤ}
use barista_sh.Contract.{InstanceState, instance_state_eq}
use barista_sh.Contract.Spec.{InstanceSpec}
use barista_sh.Journal.Table.{find, count, update, find-update}
use barista_sh.Journal.Rows.{
  StoredOperation, Identity, InstanceRow, Journal, Claim, of_instance, of_op, of_key,
}
use barista_sh.Journal.Deadline.{claimable, cleared}
use barista_sh.Journal.Operations.{in_flight_ops}
use barista_sh.Journal.Submit.{Request, queued_row, created_row, moved}
use barista_sh.Journal.Submit.Accepted.{Accepted, Plans, Consumes, Writes}
use barista_sh.Journal.Snapshots.{Db}
use barista_sh.Policy.Plan.{OpKind, states, plan_transition}
use barista_sh.Node.Executor.Ready.{Ready}

fresh-count :
    (id key : String) (rs : List StoredOperation)
    → any (λ r. of_op id r || of_key key r) rs ≡ false
    → count (of_op id) rs ≡ 0
fresh-count id key [] e = refl
fresh-count id key (r ∷ rs) e = ground (arith, fresh-count id key rs)

-- The spec of a submission that makes an instance is that instance's.
abbrev pub Names : Option InstanceSpec → String → Type 0
Names none id = Unit
Names (some spec) id = spec.instance_id ≡ id

updated :
    (id : String) (p : InstanceRow → Bool) (f : InstanceRow → InstanceRow) (rs : List InstanceRow)
    (r : InstanceRow)
    → ((r : InstanceRow) → of_instance id (f r) ≡ of_instance id r)
    → find (of_instance id) rs ≡ some r
    → (s : InstanceRow) × (find (of_instance id) (update p f rs) ≡ some s)
updated id p f rs r h e =
    (if p r then f r else r, ground (arith, find-update (of_instance id) p f rs h))

cleared_id :
    (c : Claim) (t : ℤ) (id : String) (r : InstanceRow)
    → of_instance id (cleared c t r) ≡ of_instance id r
cleared_id (Claim.ttl_expiry d) t id r = refl
cleared_id (Claim.wake d) t id r = refl

still_there :
    (id : String) (t : ℤ) (c : Option Claim) (rows left : List InstanceRow) (r : InstanceRow)
    → find (of_instance id) rows ≡ some r
    → (elim c as (λ _. Type 0) [
      | none ↦ left ≡ rows
      | some c ↦
          (count (claimable id c t) rows ≡ 1)
          × (left ≡ update (claimable id c t) (cleared c t) rows)
    ])
    → (s : InstanceRow) × (find (of_instance id) left ≡ some s)
still_there id t none rows left r e h = (r, ap (λ l. find (of_instance id) l) h ∙ e)
still_there id t (some c) rows left r e (one, h) =
    let (s, found) = updated id (claimable id c t) (cleared c t) rows r (cleared_id c t id) e in
    (s, ap (λ l. find (of_instance id) l) h ∙ found)

found_first :
    (id : String) (r : InstanceRow) (rs : List InstanceRow)
    → r.instance_id ≡ id
    → find (of_instance id) (r ∷ rs) ≡ some r
found_first id r rs e = ground (arith, e, eq_refl id)

queued_first :
    (q : Request) (rs : List StoredOperation)
    → find (of_op q.op.op_id) (queued_row q.op q.idempotency_key ∷ rs)
      ≡ some (queued_row q.op q.idempotency_key)
queued_first q rs = ground (arith, eq_refl q.op.op_id)

-- The instance of a journaled submission is there.
written :
    (q : Request) (t now : ℤ) (j : Journal) (s : InstanceState) (rows final : List InstanceRow)
    → Names q.create_spec q.op.instance_id
    → Plans q j s
    → Consumes q t j.instances rows
    → Writes q s now rows final
    → (r : InstanceRow) × (find (of_instance q.op.instance_id) final ≡ some r)
written q t now j s rows final names plans consumes writes =
    by_spec q.create_spec names plans writes
  where
    by_spec :
        (o : Option InstanceSpec)
        → Names o q.op.instance_id
        → (elim o as (λ _. Type 0) [
          | some _ ↦ (find (of_instance q.op.instance_id) j.instances ≡ none) × (q.transitional ≡ s)
          | none ↦
              (r : InstanceRow) × (find (of_instance q.op.instance_id) j.instances ≡ some r)
              × (q.plan r.state ≡ some s)
        ])
        → (elim o as (λ _. Type 0) [
          | some spec ↦
              (any (of_instance spec.instance_id) rows ≡ false)
              × (identity : Option Identity) × (q.mint_identity spec.instance_id ≡ some identity)
              × (final ≡ created_row q spec identity now ∷ rows)
          | none ↦ final ≡ update (of_instance q.op.instance_id) (moved s now) rows
        ])
        → (r : InstanceRow) × (find (of_instance q.op.instance_id) final ≡ some r)
    by_spec none names (r, found, plan) wrote =
        let (u, left) = still_there q.op.instance_id t q.claim j.instances rows r found consumes in
        let (v, e) =
          updated q.op.instance_id (of_instance q.op.instance_id) (moved s now) rows u (λ r. refl)
            left in
        (v, ap (λ l. find (of_instance q.op.instance_id) l) wrote ∙ e)
    by_spec (some spec) names plan (fresh, identity, minted, wrote) = (
      created_row q spec identity now,
      ap (λ l. find (of_instance q.op.instance_id) l) wrote
          ∙ found_first q.op.instance_id (created_row q spec identity now) rows names,
    )

-- A journaled submission leaves its operation in flight, and its instance there.
pub Accepted-Ready :
    (q : Request) (t now : ℤ) (d e : Db) (s : InstanceState)
    → Names q.create_spec q.op.instance_id
    → in_flight_ops q.op.state ≡ true
    → Accepted q t now d.journal s e.journal
    → Ready q.op.op_id q.op.instance_id e
Accepted-Ready q t now d e s names flight a =
    let (r, present) =
      written q t now d.journal s a.left e.journal.instances names a.plans a.consumes a.writes in
    record {
      row = queued_row q.op q.idempotency_key;
      found =
          subst (λ l. find (of_op q.op.op_id) l ≡ some (queued_row q.op q.idempotency_key))
            (sym a.queued) (queued_first q d.journal.operations);
      in_flight = flight;
      alone =
          subst (λ l. count (of_op q.op.op_id) l ≤ 1) (sym a.queued)
            (ground (arith, fresh-count q.op.op_id q.idempotency_key d.journal.operations a.fresh));
      instance_row = r;
      present = present;
    }

-- The state that an instance is recorded in while an operation of the kind runs.
abbrev pub Begun : OpKind → InstanceState → Type 0
Begun OpKind.create recorded = (recorded ≡ InstanceState.creating)
Begun OpKind.fork recorded = (recorded ≡ InstanceState.creating)
Begun OpKind.start recorded = (recorded ≡ InstanceState.starting)
Begun OpKind.resume recorded = (recorded ≡ InstanceState.resuming)
Begun OpKind.stop recorded = (recorded ≡ InstanceState.stopping)
Begun OpKind.pause recorded = (recorded ≡ InstanceState.pausing)
Begun OpKind.destroy recorded = (recorded ≡ InstanceState.destroying)
Begun OpKind.create_snapshot recorded =
    (recorded ≡ InstanceState.checkpointing) ⊎ (recorded ≡ InstanceState.paused)
Begun OpKind.delete_snapshot recorded = Unit

states-Begun : (kind : OpKind) → Begun kind (states kind).0
unfolding states
states-Begun OpKind.create = refl
states-Begun OpKind.fork = refl
states-Begun OpKind.start = refl
states-Begun OpKind.resume = refl
states-Begun OpKind.stop = refl
states-Begun OpKind.pause = refl
states-Begun OpKind.destroy = refl
states-Begun OpKind.create_snapshot = inl refl
states-Begun OpKind.delete_snapshot = tt

plan-Begun :
    (kind : OpKind) (from recorded : InstanceState)
    → plan_transition kind (states kind).0 from ≡ some recorded
    → Begun kind recorded
unfolding plan_transition states
plan-Begun OpKind.create_snapshot from recorded e =
    elim (Bool-cases (instance_state_eq from InstanceState.paused)) [
      | inl t ↦ inr (ground (arith, t))
      | inr f ↦ inl (ground (arith, f))
    ]
plan-Begun OpKind.delete_snapshot from recorded e = tt
plan-Begun OpKind.create from recorded e = ground arith
plan-Begun OpKind.fork from recorded e = ground arith
plan-Begun OpKind.start from recorded e = ground arith
plan-Begun OpKind.resume from recorded e = ground arith
plan-Begun OpKind.stop from recorded e = ground arith
plan-Begun OpKind.pause from recorded e = ground arith
plan-Begun OpKind.destroy from recorded e = ground arith

pub Plans-Begun :
    (kind : OpKind) (q : Request) (j : Journal) (recorded : InstanceState)
    → q.transitional ≡ (states kind).0
    → q.plan ≡ plan_transition kind (states kind).0
    → Plans q j recorded
    → Begun kind recorded
Plans-Begun kind q j recorded t p plans = by_spec q.create_spec plans
  where
    by_spec :
        (o : Option InstanceSpec)
        → (elim o as (λ _. Type 0) [
          | some _ ↦
              (find (of_instance q.op.instance_id) j.instances ≡ none) × (q.transitional ≡ recorded)
          | none ↦
              (r : InstanceRow) × (find (of_instance q.op.instance_id) j.instances ≡ some r)
              × (q.plan r.state ≡ some recorded)
        ])
        → Begun kind recorded
    by_spec none (r, found, plan) =
        plan-Begun kind r.state recorded
          (subst (λ (f : InstanceState → Option InstanceState). f r.state ≡ some recorded) p plan)
    by_spec (some spec) (absent, e) = subst (Begun kind) (sym t ∙ e) (states-Begun kind)
