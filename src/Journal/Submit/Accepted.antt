-- ===== src/Journal/Submit/Accepted.antt =====
-- What `Db::submit_atomically` (crates/barista-node-agent/src/db.rs) has checked and written when it
-- journals a submission.
use Prim.Native.String.{String}
use mathlib.Core.Path.{subst}
use barista_sh.Base.{
  false, ◌||◌, List, ◌∷◌, Option, none, some, Option-cases, ◌≡◌, inl, inr, any, arith,
}
use barista_sh.Base.Int.{ℤ}
use barista_sh.Contract.{InstanceState}
use barista_sh.Journal.Table.{find, count, update}
use barista_sh.Journal.Rows.{
  OperationRow, Identity, InstanceRow, Journal, of_instance, of_op, of_key,
}
use barista_sh.Journal.Tx.{Outcome, proceeds, Tx, after, pure, after-proceeds, ◌>>◌}
use barista_sh.Journal.Deadline.{take_deadline, claimable, cleared}
use barista_sh.Journal.Submit.{
  Request, active_on, replay_check, conflict_check, planned_state, consume_claim, queued_row,
  insert_operation, created_row, moved, write_instance, submission,
}

-- The state that a submission plans, from the instance as it is.
abbrev pub Plans : Request → Journal → InstanceState → Type 0
Plans q j s = elim q.create_spec [
  | some _ ↦ (find (of_instance q.op.instance_id) j.instances ≡ none) × (q.transitional ≡ s)
  | none ↦
      (r : InstanceRow) × (find (of_instance q.op.instance_id) j.instances ≡ some r)
      × (q.plan r.state ≡ some s)
]

-- The instances once the deadline that a submission claims is consumed: it was the one observed,
-- it was due, and it is gone.
abbrev pub Consumes : Request → ℤ → List InstanceRow → List InstanceRow → Type 0
Consumes q t rows left = elim q.claim [
  | none ↦ left ≡ rows
  | some c ↦
      (count (claimable q.op.instance_id c t) rows ≡ 1)
      × (left ≡ update (claimable q.op.instance_id c t) (cleared c t) rows)
]

-- The instances once the submission's own write is made.
abbrev pub Writes : Request → InstanceState → ℤ → List InstanceRow → List InstanceRow → Type 0
Writes q s now rows done = elim q.create_spec [
  | some spec ↦
      (any (of_instance spec.instance_id) rows ≡ false)
      × (identity : Option Identity) × (q.mint_identity spec.instance_id ≡ some identity)
      × (done ≡ created_row q spec identity now ∷ rows)
  | none ↦ done ≡ update (of_instance q.op.instance_id) (moved s now) rows
]

-- The submission `q` was journaled, and turned `j` into `k`.
pub record Accepted (q : Request) (t now : ℤ) (j : Journal) (s : InstanceState) (k : Journal)
    : Type 0 where
  pub fresh_key : find (of_key q.idempotency_key) j.operations ≡ none
  pub idle : count (active_on q.op.instance_id) j.operations ≡ 0
  pub plans : Plans q j s
  pub left : List InstanceRow
  pub consumes : Consumes q t j.instances left
  pub writes : Writes q s now left k.instances
  pub fresh : any (λ r. of_op q.op.op_id r || of_key q.idempotency_key r) j.operations ≡ false
  pub queued : k.operations ≡ queued_row q.op q.idempotency_key ∷ j.operations
  pub epochs : k.next_execution_epoch ≡ j.next_execution_epoch

pub replayed :
    (key : String) (j k : Journal) (u : Unit {0})
    → replay_check key j ≡ proceeds u k
    → (k ≡ j) × (find (of_key key) j.operations ≡ none)
unfolding replay_check
replayed key j k u e = (ground arith, ground arith)

pub no_conflict :
    (id : String) (j k : Journal) (u : Unit {0})
    → conflict_check id j ≡ proceeds u k
    → (k ≡ j) × (count (active_on id) j.operations ≡ 0)
unfolding conflict_check
no_conflict id j k u e = (ground arith, ground arith)

pub planned :
    (q : Request) (j k : Journal) (s : InstanceState)
    → planned_state q j ≡ proceeds s k
    → (k ≡ j) × Plans q j s
unfolding planned_state
planned q j k s e = (ground arith, grind arith)

consumed :
    (q : Request) (t : ℤ) (j k : Journal) (u : Unit {0})
    → consume_claim q.op.instance_id q.claim t j ≡ proceeds u k
    → (k.operations ≡ j.operations)
      × (k.next_execution_epoch ≡ j.next_execution_epoch)
      × Consumes q t j.instances k.instances
unfolding consume_claim take_deadline
consumed q t j k u e = elim (Option-cases q.claim) [
  | inl n ↦ (ground (arith, n), ground (arith, n), grind (arith, n))
  | inr (c, n) ↦ (ground (arith, n), ground (arith, n), grind (arith, n))
]

inserted :
    (op : OperationRow) (key : String) (j k : Journal) (u : Unit {0})
    → insert_operation op key j ≡ proceeds u k
    → (any (λ r. of_op op.op_id r || of_key key r) j.operations ≡ false)
      × (k.operations ≡ queued_row op key ∷ j.operations)
      × (k.instances ≡ j.instances)
      × (k.next_execution_epoch ≡ j.next_execution_epoch)
unfolding insert_operation
inserted op key j k u e = (ground arith, ground arith, ground arith, ground arith)

written :
    (q : Request) (s : InstanceState) (now : ℤ) (j k : Journal) (u : Unit {0})
    → write_instance q s now j ≡ proceeds u k
    → Writes q s now j.instances k.instances
      × (k.operations ≡ j.operations)
      × (k.next_execution_epoch ≡ j.next_execution_epoch)
unfolding write_instance
written q s now j k u e = (grind arith, ground arith, ground arith)

-- A body whose first step only checks went on from the journal it started with.
after_check :
    {A B : Type 0} (j : Journal) (P : A → Type 0) (o : Outcome A) (f : A → Tx B) (b : B)
    (k : Journal)
    → ((l : Journal) (a : A) → o ≡ proceeds a l → (l ≡ j) × P a)
    → after o f ≡ proceeds b k
    → (a : A) × P a × (f a j ≡ proceeds b k)
after_check j P o f b k h e =
    let (a, l, e1, r) = after-proceeds o f b k e in
    (a, (h l a e1).1, subst (λ x. f a x ≡ proceeds b k) (h l a e1).0 r)

-- The writes of a submission whose checks have passed.
abbrev pub tail_of : Request → ℤ → ℤ → InstanceState → Tx InstanceState
tail_of q t now p = do
  consume_claim q.op.instance_id q.claim t
  insert_operation q.op q.idempotency_key
  write_instance q p now
  pure p

record Wrote (q : Request) (t now : ℤ) (j : Journal) (s : InstanceState) (k : Journal)
    : Type 0 where
  left : List InstanceRow
  consumes : Consumes q t j.instances left
  writes : Writes q s now left k.instances
  fresh : any (λ r. of_op q.op.op_id r || of_key q.idempotency_key r) j.operations ≡ false
  queued : k.operations ≡ queued_row q.op q.idempotency_key ∷ j.operations
  epochs : k.next_execution_epoch ≡ j.next_execution_epoch

gather :
    (q : Request) (t now : ℤ) (j j4 j5 k : Journal) (s : InstanceState) (u4 u5 u6 : Unit {0})
    → consume_claim q.op.instance_id q.claim t j ≡ proceeds u4 j4
    → insert_operation q.op q.idempotency_key j4 ≡ proceeds u5 j5
    → write_instance q s now j5 ≡ proceeds u6 k
    → Wrote q t now j s k
gather q t now j j4 j5 k s u4 u5 u6 e4 e5 e6 =
    let (c1, c2, c3) = consumed q t j j4 u4 e4 in
    let (i1, i2, i3, i4) = inserted q.op q.idempotency_key j4 j5 u5 e5 in
    let (w1, w2, w3) = written q s now j5 k u6 e6 in
    record {
      left = j4.instances;
      consumes = c3;
      writes = subst (λ x. Writes q s now x k.instances) i3 w1;
      fresh =
          subst (λ x. any (λ r. of_op q.op.op_id r || of_key q.idempotency_key r) x ≡ false) c1 i1;
      queued = cc;
      epochs = cc;
    }

last_journal :
    {A : Type 0} (a b : A) (j k : Journal)
    → ◌≡◌ {A = Outcome A} (proceeds a j) (proceeds b k)
    → j ≡ k
last_journal a b j k e = cc

wrote :
    (q : Request) (t now : ℤ) (j k : Journal) (p s : InstanceState)
    → tail_of q t now p j ≡ proceeds s k
    → (p ≡ s) × Wrote q t now j p k
wrote q t now j k p s e =
    let (u4, j4, e4, r4) = after-proceeds (consume_claim q.op.instance_id q.claim t j) _ s k e in
    let (u5, j5, e5, r5) = after-proceeds (insert_operation q.op q.idempotency_key j4) _ s k r4 in
    let (u6, j6, e6, r6) = after-proceeds (write_instance q p now j5) _ s k r5 in
    finish j6 r6 (gather q t now j j4 j5 j6 p u4 u5 u6 e4 e5 e6)
  where
    finish :
        (j6 : Journal)
        → ◌≡◌ {A = Outcome InstanceState} (proceeds p j6) (proceeds s k)
        → Wrote q t now j p j6
        → (p ≡ s) × Wrote q t now j p k
    finish j6 r w = (cc, subst (λ x. Wrote q t now j p x) (last_journal p s j6 k r) w)

pub accepted :
    (q : Request) (t now : ℤ) (j k : Journal) (s : InstanceState)
    → submission q t now j ≡ proceeds s k
    → Accepted q t now j s k
unfolding submission
accepted q t now j k s e =
    let (u1, p1, r1) =
      after_check j (λ u. find (of_key q.idempotency_key) j.operations ≡ none)
        (replay_check q.idempotency_key j) _ s k (λ l u. replayed q.idempotency_key j l u) e in
    let (u2, p2, r2) =
      after_check j (λ u. count (active_on q.op.instance_id) j.operations ≡ 0)
        (conflict_check q.op.instance_id j) _ s k (λ l u. no_conflict q.op.instance_id j l u) r1 in
    let (p, p3, r3) =
      after_check j (Plans q j) (planned_state q j) _ s k (λ l p. planned q j l p) r2 in
    let (same, w) = wrote q t now j k p s r3 in
    record {
      fresh_key = p1;
      idle = p2;
      plans = subst (Plans q j) same p3;
      left = w.left;
      consumes = w.consumes;
      writes = subst (λ x. Writes q x now w.left k.instances) same w.writes;
      fresh = w.fresh;
      queued = w.queued;
      epochs = w.epochs;
    }
