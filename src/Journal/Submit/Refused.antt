-- ===== src/Journal/Submit/Refused.antt =====
-- Why `Db::submit_atomically` (crates/barista-node-agent/src/db.rs) rolls a submission back.
use Prim.Native.String.{String}
use mathlib.Core.Path.{subst}
use barista_sh.Base.{
  ◌<◌, none, some, Option-cases, Bool-cases, ◌≡◌, ◌≢◌, ◌⊎◌, inl, inr, refl, ltb, arith,
}
use text.Mathlib.TextEquality.{eq_iff}
use barista_sh.Base.Int.{ℤ}
use barista_sh.Contract.{InstanceState}
use barista_sh.Journal.Table.{find, count, find-hit}
use barista_sh.Journal.Rows.{
  OperationRow, StoredOperation, InstanceRow, Journal, Claim, Submission, of_instance, of_op,
  of_key,
}
use barista_sh.Journal.Tx.{Outcome, proceeds, rolls_back, faults, Tx, after}
use barista_sh.Journal.Deadline.{take_deadline, claimable}
use barista_sh.Journal.Submit.{
  Request, active_on, replay_check, conflict_check, planned_state, consume_claim, insert_operation,
  write_instance, submission,
}
use barista_sh.Journal.Submit.Accepted.{Plans, replayed, no_conflict, planned, tail_of}

-- Why a submission is rejected.
abbrev pub Refuses : Request → Journal → Type 0
Refuses q j = elim q.create_spec [
  | some _ ↦ find (of_instance q.op.instance_id) j.instances ≢ none
  | none ↦
      (r : InstanceRow)
      → find (of_instance q.op.instance_id) j.instances ≡ some r
      → q.plan r.state ≡ none
]

-- Why a submission rolled back with this verdict.
abbrev pub Explains : Request → ℤ → Journal → Submission → Type 0
Explains q t j (Submission.journaled s) = ⊥
Explains q t j (Submission.replay o) =
    (r original : StoredOperation) × (find (of_key q.idempotency_key) j.operations ≡ some r)
    × (find (of_op r.op.op_id) j.operations ≡ some original)
    × (original.op ≡ o)
Explains q t j Submission.conflict =
    (find (of_key q.idempotency_key) j.operations ≡ none)
    × (0 < count (active_on q.op.instance_id) j.operations)
Explains q t j Submission.rejected =
    (find (of_key q.idempotency_key) j.operations ≡ none)
    × (count (active_on q.op.instance_id) j.operations ≡ 0)
    × Refuses q j
Explains q t j Submission.claim_superseded =
    (c : Claim) × (q.claim ≡ some c)
    × (count (claimable q.op.instance_id c t) j.instances ≢ 1)
    × (find (of_key q.idempotency_key) j.operations ≡ none)
    × (count (active_on q.op.instance_id) j.operations ≡ 0)

explained :
    (q : Request) (t : ℤ) (j : Journal) (w v : Submission)
    → w ≡ v
    → Explains q t j w
    → Explains q t j v
explained q t j w v e x = subst (Explains q t j) e x

replay_explained :
    (q : Request) (t : ℤ) (j : Journal) (v : Submission)
    → replay_check q.idempotency_key j ≡ rolls_back v
    → Explains q t j v
unfolding replay_check
replay_explained q t j v e = elim (Option-cases (find (of_key q.idempotency_key) j.operations)) [
  | inl n ↦ absurd (ground (arith, n))
  | inr (r, n) ↦ elim (Option-cases (find (of_op r.op.op_id) j.operations)) [
    | inl m ↦ absurd (
        find-hit (of_key q.idempotency_key) (of_op r.op.op_id) j.operations r n
          ((eq_iff _ _).1 refl) m)
    | inr (original, m) ↦
        explained q t j (Submission.replay original.op) v (ground (arith, n, m))
          (r, original, n, m, refl)
  ]
]

conflict_explained :
    (q : Request) (t : ℤ) (j : Journal) (v : Submission)
    → find (of_key q.idempotency_key) j.operations ≡ none
    → conflict_check q.op.instance_id j ≡ rolls_back v
    → Explains q t j v
unfolding conflict_check
conflict_explained q t j v f e =
    elim (Bool-cases (ltb 0 (count (active_on q.op.instance_id) j.operations))) [
      | inl b ↦ explained q t j Submission.conflict v (ground (arith, b)) (f, ground (arith, b))
      | inr b ↦ absurd (ground (arith, b))
    ]

planned-Refuses :
    (q : Request) (j : Journal) (v : Submission)
    → planned_state q j ≡ rolls_back v
    → (Submission.rejected ≡ v) × Refuses q j
unfolding planned_state
planned-Refuses q j v e = elim (Option-cases q.create_spec) [
  | inl n ↦ (ground (arith, n), grind (arith, n))
  | inr (c, n) ↦ (ground (arith, n), grind (arith, n))
]

consume_refuses :
    (q : Request) (t : ℤ) (j : Journal) (v : Submission)
    → consume_claim q.op.instance_id q.claim t j ≡ rolls_back v
    → (Submission.claim_superseded ≡ v)
      × (c : Claim) × (q.claim ≡ some c)
      × (count (claimable q.op.instance_id c t) j.instances ≢ 1)
unfolding consume_claim take_deadline
consume_refuses q t j v e = elim (Option-cases q.claim) [
  | inl n ↦ absurd (ground (arith, n))
  | inr (c, n) ↦ (ground (arith, n), c, n, λ m. ground (arith, n, m))
]

-- A body that rolled back did so at its first step or after it.
after-rolls_back :
    {A B : Type 0} (o : Outcome A) (f : A → Tx B) (v : Submission)
    → after o f ≡ rolls_back v
    → (o ≡ rolls_back v) ⊎ ((a : A) × (j : Journal) × (o ≡ proceeds a j) × (f a j ≡ rolls_back v))
after-rolls_back (proceeds a j) f v e = inr (a, j, refl, e)
after-rolls_back (rolls_back w) f v e = inl cc
after-rolls_back faults f v e = absurd cc

after_check-rolls_back :
    {A B : Type 0} (j : Journal) (P : A → Type 0) (o : Outcome A) (f : A → Tx B) (v : Submission)
    → ((l : Journal) (a : A) → o ≡ proceeds a l → (l ≡ j) × P a)
    → after o f ≡ rolls_back v
    → (o ≡ rolls_back v) ⊎ ((a : A) × P a × (f a j ≡ rolls_back v))
after_check-rolls_back j P o f v h e = elim (after-rolls_back o f v e) [
  | inl x ↦ inl x
  | inr (a, l, e1, r) ↦ inr (a, (h l a e1).1, subst (λ x. f a x ≡ rolls_back v) (h l a e1).0 r)
]

insert_no_verdict :
    (op : OperationRow) (key : String) (j : Journal) (v : Submission)
    → insert_operation op key j ≢ rolls_back v
unfolding insert_operation
insert_no_verdict op key j v e = ground arith

write_no_verdict :
    (q : Request) (s : InstanceState) (now : ℤ) (j : Journal) (v : Submission)
    → write_instance q s now j ≢ rolls_back v
unfolding write_instance
write_no_verdict q s now j v e = ground arith

tail_refuses :
    (q : Request) (t now : ℤ) (j : Journal) (p : InstanceState) (v : Submission)
    → tail_of q t now p j ≡ rolls_back v
    → consume_claim q.op.instance_id q.claim t j ≡ rolls_back v
tail_refuses q t now j p v e =
    elim (after-rolls_back (consume_claim q.op.instance_id q.claim t j) _ v e) [
      | inl x ↦ x
      | inr (u, j4, e4, r4) ↦
          elim (after-rolls_back (insert_operation q.op q.idempotency_key j4) _ v r4) [
            | inl x ↦ absurd (insert_no_verdict q.op q.idempotency_key j4 v x)
            | inr (u5, j5, e5, r5) ↦ elim (after-rolls_back (write_instance q p now j5) _ v r5) [
              | inl x ↦ absurd (write_no_verdict q p now j5 v x)
              | inr (u6, j6, e6, r6) ↦ absurd cc
            ]
          ]
    ]

pub refused :
    (q : Request) (t now : ℤ) (j : Journal) (v : Submission)
    → submission q t now j ≡ rolls_back v
    → Explains q t j v
unfolding submission
refused q t now j v e =
    elim (after_check-rolls_back j (λ u. find (of_key q.idempotency_key) j.operations ≡ none)
      (replay_check q.idempotency_key j) _ v (λ l u. replayed q.idempotency_key j l u) e) [
        | inl x ↦ replay_explained q t j v x
        | inr (u, f, r1) ↦
            elim (after_check-rolls_back j
              (λ u. count (active_on q.op.instance_id) j.operations ≡ 0)
              (conflict_check q.op.instance_id j) _ v (λ l u. no_conflict q.op.instance_id j l u)
              r1) [
                | inl x ↦ conflict_explained q t j v f x
                | inr (w, idle, r2) ↦
                    elim (after_check-rolls_back j (Plans q j) (planned_state q j) _ v
                      (λ l p. planned q j l p) r2) [
                        | inl x ↦
                            let (same, why) = planned-Refuses q j v x in
                            explained q t j Submission.rejected v same (f, idle, why)
                        | inr (p, plans, r3) ↦
                            let (same, c, k, n) =
                              consume_refuses q t j v (tail_refuses q t now j p v r3) in
                            explained q t j Submission.claim_superseded v same (c, k, n, f, idle)
                      ]
              ]
      ]
