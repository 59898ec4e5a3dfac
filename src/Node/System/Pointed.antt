-- ===== src/Node/System/Pointed.antt =====
-- The snapshots that instances point at, under the tasks of crates/barista-node-agent/src/ops.rs.
use Prim.Native.String.{String}
use mathlib.Core.Path.{subst}
use text.Mathlib.Text.{◌==◌ as str_eq}
use text.Mathlib.TextPositions.{eq_refl}
use text.Mathlib.TextEquality.{eq_iff}
use barista_sh.Base.{
  ℕ, Bool, true, false, Bool-cases, Option-cases, Option, none, some, List, [], ◌∷◌, All, any,
  if◌then◌else◌, ◌≡◌, ◌⊎◌, inl, inr, refl, sym, arith,
}
use barista_sh.Base.Int.{ℤ}
use barista_sh.Contract.{InstanceState, ErrorReason}
use barista_sh.Contract.Spec.{InstanceSpec}
use barista_sh.Journal.Table.{count, update, delete, All-update, All-weaken}
use barista_sh.Journal.Rows.{
  InstanceRow, Journal, Identity, Submission, Finalized, Claim, ttl_expiry, wake, of_instance,
}
use barista_sh.Journal.Deadline.{claimable, cleared}
use barista_sh.Journal.Operations.{
  Finish, finish_operation, finished_instance, fail_all, in_flight_ids, finish_op_failed,
  release_claims, fail_inflight_ops, restart, set_op_step, set_op_froze_workload, set_op_fork_mode,
}
use barista_sh.Journal.Instances.{
  issue_execution_epoch, set_instance_epoch, point_at, unpoint, points_at, unpointed,
}
use barista_sh.Journal.Submit.{Request, created_row, moved, submit_atomically}
use barista_sh.Journal.Submit.Accepted.{Consumes, Writes}
use barista_sh.Journal.Submit.Verdict.{Verdict, submit-Verdict}
use barista_sh.Journal.Snapshots.{Db, SnapshotRow, of_snapshot, insert_snapshot, delete_snapshot}
use barista_sh.Node.Keeps.{Safe}
use barista_sh.Node.Submit.{Config, Submitting, submit_db, submit_claiming}
use barista_sh.Node.Submitted.{submit-Safe}
use barista_sh.Node.Executor.{execute, bind_db}
use barista_sh.Node.Executor.Steps.{Execution, target, on_journal}
use barista_sh.Node.Executor.Finalize.{finish_db}
use barista_sh.Node.Executor.Calls.{execute-Safe}
use barista_sh.Node.System.{Task, System}
use barista_sh.Node.System.Keeping.{Preserves, always}

-- The instance has no latest snapshot, or the snapshot is in the table.
abbrev pub PointsIn : List SnapshotRow → InstanceRow → Type 0
PointsIn ss r = (r.latest_snapshot_id ≡ "") ⊎ (any (of_snapshot r.latest_snapshot_id) ss ≡ true)

abbrev pub Pointed : Db → Type 0
Pointed d = All (PointsIn d.snapshots) d.journal.instances

-- an UPDATE that keeps the pointers
kept_pointers :
    (ss : List SnapshotRow) (p : InstanceRow → Bool) (f : InstanceRow → InstanceRow)
    (rows : List InstanceRow)
    → ((r : InstanceRow) → (f r).latest_snapshot_id ≡ r.latest_snapshot_id)
    → All (PointsIn ss) rows
    → All (PointsIn ss) (update p f rows)
kept_pointers ss p f rows same h =
    All-update (PointsIn ss) p f rows
      (λ r t g. subst (λ id. (id ≡ "") ⊎ (any (of_snapshot id) ss ≡ true)) (sym (same r)) g) h

still_stored :
    (id sid : String) (ss : List SnapshotRow)
    → str_eq id sid ≡ false
    → any (of_snapshot id) ss ≡ true
    → any (of_snapshot id) (delete (of_snapshot sid) ss) ≡ true
still_stored id sid [] n e = e
still_stored id sid (s ∷ ss) n e = elim (Bool-cases (of_snapshot sid s)) [
  | inl t ↦
      let apart : of_snapshot id s ≡ false =
        ground (arith, n, (eq_iff s.snapshot_id sid).0 t, eq_iff s.snapshot_id id, eq_refl id) in
      ground (arith, still_stored id sid ss n, e, t, apart)
  | inr f ↦ ground (arith, still_stored id sid ss n, e, f)
]

now_stored :
    (row : SnapshotRow) (ss : List SnapshotRow) (r : InstanceRow)
    → PointsIn ss r
    → PointsIn (row ∷ delete (of_snapshot row.snapshot_id) ss) r
now_stored row ss r (inl e) = inl e
now_stored row ss r (inr e) = elim (Bool-cases (str_eq r.latest_snapshot_id row.snapshot_id)) [
  | inl t ↦
      inr
        (ground (arith, (eq_iff r.latest_snapshot_id row.snapshot_id).0 t, eq_refl row.snapshot_id))
  | inr f ↦ inr (ground (arith, still_stored r.latest_snapshot_id row.snapshot_id ss f e))
]

inserted-Pointed :
    (row : SnapshotRow) (now : ℤ) (d : Db) → Pointed d → Pointed (insert_snapshot row now d)
unfolding insert_snapshot point_at
inserted-Pointed row now d h =
    let ss = row ∷ delete (of_snapshot row.snapshot_id) d.snapshots in
    All-update (PointsIn ss) (of_instance row.instance_id) _ d.journal.instances
      (λ r t g. inr (ground (arith, eq_refl row.snapshot_id)))
      (All-weaken (PointsIn d.snapshots) (PointsIn ss) d.journal.instances
        (λ r g. now_stored row d.snapshots r g) h)

unpointed_row :
    (sid : String) (ss : List SnapshotRow) (r : InstanceRow) (b : Bool)
    → points_at sid r ≡ b
    → PointsIn ss r
    → PointsIn (delete (of_snapshot sid) ss) (if b then unpointed r else r)
unpointed_row sid ss r true e h = inl refl
unpointed_row sid ss r false e (inl h) = inl h
unpointed_row sid ss r false e (inr h) = inr (still_stored r.latest_snapshot_id sid ss e h)

unpointed_rows :
    (sid : String) (ss : List SnapshotRow) (rows : List InstanceRow)
    → All (PointsIn ss) rows
    → All (PointsIn (delete (of_snapshot sid) ss)) (update (points_at sid) unpointed rows)
unpointed_rows sid ss [] h = tt
unpointed_rows sid ss (r ∷ rows) (h, hs) =
    (unpointed_row sid ss r (points_at sid r) refl h, unpointed_rows sid ss rows hs)

deleted-Pointed : (sid : String) (d : Db) → Pointed d → Pointed (delete_snapshot sid d)
unfolding delete_snapshot unpoint
deleted-Pointed sid d h = unpointed_rows sid d.snapshots d.journal.instances h

rolled_back :
    (q : Finish) (now : ℤ) (j : Journal)
    → (finish_operation q now j).0 ≡ none
    → (finish_operation q now j).1.instances ≡ j.instances
unfolding finish_operation
rolled_back q now j e = ground (arith, e)

applied :
    (q : Finish) (now : ℤ) (j : Journal) (f : Finalized)
    → (finish_operation q now j).0 ≡ some f
    → (finish_operation q now j).1.instances
      ≡ update (of_instance q.instance_id) (finished_instance q now) j.instances
unfolding finish_operation
applied q now j f e = ground (arith, e)

finished-Pointed : (q : Finish) (now : ℤ) (d : Db) → Pointed d → Pointed (finish_db q now d).1
finished-Pointed q now d h = elim (Option-cases (finish_operation q now d.journal).0) [
  | inl e ↦ subst (λ l. All (PointsIn d.snapshots) l) (sym (rolled_back q now d.journal e)) h
  | inr (f, e) ↦
      subst (λ l. All (PointsIn d.snapshots) l) (sym (applied q now d.journal f e))
        (kept_pointers d.snapshots (of_instance q.instance_id) (finished_instance q now)
          d.journal.instances (λ r. refl) h)
]

consumed_pointers :
    (ss : List SnapshotRow) (q : Request) (t : ℤ) (rows left : List InstanceRow)
    → Consumes q t rows left
    → All (PointsIn ss) rows
    → All (PointsIn ss) left
consumed_pointers ss q t rows left c h = by_claim q.claim c
  where
    cleared_pointer :
        (c : Claim) (r : InstanceRow) → (cleared c t r).latest_snapshot_id ≡ r.latest_snapshot_id
    cleared_pointer (ttl_expiry d) r = refl
    cleared_pointer (wake d) r = refl

    by_claim :
        (o : Option Claim)
        → (elim o as (λ _. Type 0) [
          | none ↦ left ≡ rows
          | some c ↦
              (count (claimable q.op.instance_id c t) rows ≡ 1)
              × (left ≡ update (claimable q.op.instance_id c t) (cleared c t) rows)
        ])
        → All (PointsIn ss) left
    by_claim none e = subst (λ l. All (PointsIn ss) l) (sym e) h
    by_claim (some c) (one, e) =
        subst (λ l. All (PointsIn ss) l) (sym e)
          (kept_pointers ss (claimable q.op.instance_id c t) (cleared c t) rows (cleared_pointer c)
            h)

written_pointers :
    (ss : List SnapshotRow) (q : Request) (s : InstanceState) (now : ℤ)
    (rows final : List InstanceRow)
    → Writes q s now rows final
    → All (PointsIn ss) rows
    → All (PointsIn ss) final
written_pointers ss q s now rows final w h = by_spec q.create_spec w
  where
    by_spec :
        (o : Option InstanceSpec)
        → (elim o as (λ _. Type 0) [
          | some spec ↦
              (any (of_instance spec.instance_id) rows ≡ false)
              × (identity : Option Identity) × (q.mint_identity spec.instance_id ≡ some identity)
              × (final ≡ created_row q spec identity now ∷ rows)
          | none ↦ final ≡ update (of_instance q.op.instance_id) (moved s now) rows
        ])
        → All (PointsIn ss) final
    by_spec none e =
        subst (λ l. All (PointsIn ss) l) (sym e)
          (kept_pointers ss (of_instance q.op.instance_id) (moved s now) rows (λ r. refl) h)
    by_spec (some spec) (fresh, identity, minted, e) =
        subst (λ l. All (PointsIn ss) l) (sym e) (inl refl, h)

submitted-Pointed : (q : Request) (t now : ℤ) (d : Db) → Pointed d → Pointed (submit_db q t now d).1
submitted-Pointed q t now d h =
    by_verdict (submit_atomically q t now d.journal).0 (submit_atomically q t now d.journal).1
      (submit-Verdict q t now d.journal)
  where
    same : (k : Journal) → k ≡ d.journal → All (PointsIn d.snapshots) k.instances
    same k e = subst (λ (j : Journal). All (PointsIn d.snapshots) j.instances) (sym e) h

    by_verdict :
        (o : Option Submission) (k : Journal)
        → Verdict q t now d.journal o k
        → All (PointsIn d.snapshots) k.instances
    by_verdict none k v = same k v
    by_verdict (some (Submission.replay o)) k v = same k (v.0)
    by_verdict (some Submission.conflict) k v = same k (v.0)
    by_verdict (some Submission.rejected) k v = same k (v.0)
    by_verdict (some Submission.claim_superseded) k v = same k (v.0)
    by_verdict (some (Submission.journaled s)) k v =
        written_pointers d.snapshots q s now v.left k.instances v.writes
          (consumed_pointers d.snapshots q t d.journal.instances v.left v.consumes h)

bound-Pointed :
    (id : String) (epoch : ℕ) (now : ℤ) (d : Db) → Pointed d → Pointed (bind_db id epoch now d).1
unfolding set_instance_epoch
bound-Pointed id epoch now d h =
    kept_pointers d.snapshots (of_instance id)
      (λ r. record r { execution_epoch = epoch; updated_at_ms = now }) d.journal.instances
      (λ r. refl) h

execute-Pointed : (x : Execution) → Safe (Preserves Pointed) (λ c. Unit) (execute x)
unfolding set_op_step set_op_froze_workload set_op_fork_mode issue_execution_epoch
    set_instance_epoch
execute-Pointed x =
    execute-Safe (Preserves Pointed) (λ c. Unit) x
      (record {
        stepped = λ name d h. h;
        froze = λ d h. h;
        measured = λ mode d h. h;
        inserts = λ row now c e d h. inserted-Pointed row now d h;
        deletes = λ sid c d h. deleted-Pointed sid d h;
        calls = λ c m. tt;
      })
      (record {
        steps = λ name d h. h;
        finishes = λ q e f d h. finished-Pointed q x.finish_now d h;
      })
      (λ work c m. tt)
      (record {
        issues = λ d h. h;
        binds = λ epoch d h. bound-Pointed (target x) epoch x.bind_now d h;
      })

submit-Pointed :
    (cfg : Config) (s : Submitting) → Safe (Preserves Pointed) (λ c. Unit) (submit_claiming cfg s)
submit-Pointed cfg s =
    submit-Safe (Preserves Pointed) (λ c. Unit) tt (λ q t now d h. submitted-Pointed q t now d h)
      cfg s

failed_instances :
    (ids : List String) (message : String) (now : ℤ) (j : Journal)
    → (fail_all ids message now j).instances ≡ j.instances
unfolding finish_op_failed
failed_instances [] message now j = refl
failed_instances (id ∷ ids) message now j =
    failed_instances ids message now (finish_op_failed id ErrorReason.unspecified message now j)

restart-Pointed :
    (message : String) (now : ℤ) (d : Db) → Pointed d → Pointed (on_journal (restart message now) d)
unfolding restart release_claims fail_inflight_ops
restart-Pointed message now d h =
    subst (λ l. All (PointsIn d.snapshots) l)
      (sym (
        failed_instances (in_flight_ids (release_claims d.journal).operations) message now
          (release_claims d.journal)))
      h

-- However the submissions and the executors of an agent are interleaved, whatever fails and however
-- often the agent restarts, the latest snapshot of every instance is in the journal, where it has
-- one.
pub snapshots_Pointed : (d : Db) (ts : List Task) → System d ts → Pointed d
snapshots_Pointed = always Pointed tt restart-Pointed execute-Pointed submit-Pointed
