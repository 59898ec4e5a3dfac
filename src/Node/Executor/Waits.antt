-- ===== src/Node/Executor/Waits.antt =====
-- The epoch of a run (`execute` of crates/barista-node-agent/src/ops.rs): a boot makes no call before
-- a new epoch is bound to its instance.
use Prim.Native.String.{String}
use mathlib.Core.Path.{subst}
use barista_sh.Base.{
  ℕ, ◌+◌, Bool, true, Bool-cases, Option, none, some, List, [], ◌∷◌, if◌then◌else◌, ◌≡◌, ◌⊎◌, inl,
  inr, refl, ◌∙◌, ap, arith,
}
use barista_sh.Base.Int.{ℤ}
use barista_sh.Journal.Table.{find, count, update, find-update, find-passes}
use barista_sh.Journal.Rows.{InstanceRow, of_instance}
use barista_sh.Journal.Instances.{issue_execution_epoch, set_instance_epoch, point_at, unpoint}
use barista_sh.Journal.Operations.{
  set_op_step, set_op_froze_workload, set_op_fork_mode, Finish, finished_instance, finish_operation,
}
use barista_sh.Journal.Snapshots.{Db, insert_snapshot, delete_snapshot}
use barista_sh.Node.Runtime.{Call, Reply}
use barista_sh.Node.Process.{Notice, Proc, done, look, write, call, notify, bind}
use barista_sh.Node.Keeps.{Safe}
use barista_sh.Node.Executor.{execute, want_epoch, bind_epoch, is_boot, Epoch, issue_db, bind_db}
use barista_sh.Node.Executor.Steps.{Execution, target}
use barista_sh.Node.Executor.Finalize.{finalize, fail_closed, finish_db}
use barista_sh.Node.Executor.Verbs.{run_verb}
use barista_sh.Node.Executor.Conduct.{Permits}
use barista_sh.Node.Executor.Calls.{Ends, run-Safe, failure_committed-Safe}

-- A call that a process may make when it starts on a database on which no other task writes, and
-- the database at that call, whatever is answered and whatever fails.
abbrev pub Asks : {A : Type 0} → Db → Proc A → Call → Db → Type 0
Asks d (done a) c m = ⊥
Asks d (look k) c m = Asks d (k (some d)) c m ⊎ Asks d (k none) c m
Asks d (write w k) c m = Asks (w d).1 (k (w d).0) c m ⊎ Asks d (k none) c m
Asks d (call b k) c m = ((b ≡ c) × (d ≡ m)) ⊎ ((r : Reply b) × Asks d (k r) c m)
Asks d (notify n p) c m = Asks d p c m

-- The epoch is the instance's.
abbrev pub Bound : String → ℕ → Db → Type 0
Bound id n d =
    (r : InstanceRow) × (find (of_instance id) d.journal.instances ≡ some r)
    × (r.execution_epoch ≡ n)

-- What every write of a process keeps holds at each of its calls.
asked :
    {A : Type 0} (I : Db → Type 0) (C : Call → Type 0) (d m : Db) (p : Proc A) (c : Call)
    → Safe (λ R w. (e : Db) → I e → I (w e).1) C p
    → I d
    → Asks d p c m
    → I m × C c
asked I C d m (done a) c s i h = absurd h
asked I C d m (look k) c s i (inl h) = asked I C d m (k (some d)) c (s (some d)) i h
asked I C d m (look k) c s i (inr h) = asked I C d m (k none) c (s none) i h
asked I C d m (write w k) c s i (inl h) =
    asked I C (w d).1 m (k (w d).0) c (s.1 (w d).0) (s.0 d i) h
asked I C d m (write w k) c s i (inr h) = asked I C d m (k none) c (s.1 none) i h
asked I C d m (call b k) c s i (inl (e, f)) = (subst I f i, subst C e (s.0))
asked I C d m (call b k) c s i (inr (r, h)) = asked I C d m (k r) c (s.1 r) i h
asked I C d m (notify n p) c s i h = asked I C d m p c s i h

-- an UPDATE that keeps the keys and the epochs of instances
rows-Bound :
    (id : String) (n : ℕ) (p : InstanceRow → Bool) (f : InstanceRow → InstanceRow)
    (rows : List InstanceRow) (r : InstanceRow)
    → ((r : InstanceRow) → of_instance id (f r) ≡ of_instance id r)
    → ((r : InstanceRow) → (f r).execution_epoch ≡ r.execution_epoch)
    → find (of_instance id) rows ≡ some r
    → r.execution_epoch ≡ n
    → (s : InstanceRow) × (find (of_instance id) (update p f rows) ≡ some s)
      × (s.execution_epoch ≡ n)
rows-Bound id n p f rows r key same e b = (
  if p r then f r else r,
  ground (arith, find-update (of_instance id) p f rows key, e),
  ground (arith, same r, b),
)

finish_instances :
    (q : Finish) (now : ℤ) (d : Db)
    → ((finish_db q now d).1.journal.instances
        ≡ update (of_instance q.instance_id) (finished_instance q now) d.journal.instances)
      ⊎ ((finish_db q now d).1.journal.instances ≡ d.journal.instances)
unfolding finish_operation
finish_instances q now d = ground arith

module _ (x : Execution) (n : ℕ) where
  abbrev Keeping : (R : Type 0) → (Db → Option R × Db) → Type 0
  Keeping R w = (d : Db) → Bound (target x) n d → Bound (target x) n (w d).1

  finish-Bound :
      (q : Finish) (now : ℤ) (d : Db)
      → Bound (target x) n d
      → Bound (target x) n (finish_db q now d).1
  finish-Bound q now d (r, e, b) = elim (finish_instances q now d) [
    | inl w ↦
        let (s, f, c) =
          rows-Bound (target x) n (of_instance q.instance_id) (finished_instance q now)
            d.journal.instances r (λ r. refl) (λ r. refl) e b in
        (s, ap (λ l. find (of_instance (target x)) l) w ∙ f, c)
    | inr w ↦ (r, ap (λ l. find (of_instance (target x)) l) w ∙ e, b)
  ]

  permits : Permits Keeping (λ c. Unit) x
  unfolding set_op_step set_op_froze_workload set_op_fork_mode insert_snapshot delete_snapshot
      point_at unpoint
  permits = record {
    stepped = λ name d h. h;
    froze = λ d h. h;
    measured = λ mode d h. h;
    inserts = λ row now c i d (r, e, b).
        rows-Bound (target x) n _ _ d.journal.instances r (λ r. refl) (λ r. refl) e b;
    deletes = λ sid c d (r, e, b).
        rows-Bound (target x) n _ _ d.journal.instances r (λ r. refl) (λ r. refl) e b;
    calls = λ c m. tt;
  }

  ends : Ends Keeping (λ c. Unit) x
  unfolding set_op_step
  ends = record { steps = λ name d h. h; finishes = λ q e f d h. finish-Bound q x.finish_now d h }

silent_failure : (x : Execution) → Safe (λ R w. (d : Db) → Unit → Unit) (λ c. ⊥) (fail_closed x)
unfolding fail_closed
silent_failure x = (
  λ d u. tt,
  λ _. (λ d u. tt, λ o. failure_committed-Safe (λ R w. (d : Db) → Unit → Unit) (λ c. ⊥) x o),
)

no_calls : (x : Execution) (d m : Db) (c : Call) → Asks d (fail_closed x) c m → ⊥
no_calls x d m c h = (asked (λ d. Unit) (λ c. ⊥) d m (fail_closed x) c (silent_failure x) tt h).1

one_found :
    (p : InstanceRow → Bool) (rs : List InstanceRow)
    → count p rs ≡ 1
    → (r : InstanceRow) × (find p rs ≡ some r)
one_found p [] e = absurd (omega (arith, e))
one_found p (r ∷ rs) e = elim (Bool-cases (p r)) [
  | inl t ↦ (r, ground (arith, t))
  | inr f ↦ let (s, h) = one_found p rs (ground (arith, e, f)) in (s, ground (arith, f, h))
]

-- the binding of an epoch that was carried out
Bound-Bound :
    (id : String) (n : ℕ) (now : ℤ) (d : Db) (u : Unit {0})
    → (bind_db id n now d).0 ≡ some u
    → Bound id n (bind_db id n now d).1
unfolding set_instance_epoch
Bound-Bound id n now d u e =
    let (r, found) = one_found (of_instance id) d.journal.instances (ground (arith, e)) in
    let hit = find-passes (of_instance id) d.journal.instances r found in
    (
      record r { execution_epoch = n; updated_at_ms = now },
      ground (
        arith,
        find-update (of_instance id) (of_instance id)
            (λ r. record r { execution_epoch = n; updated_at_ms = now }) d.journal.instances
            (λ r. refl),
        found,
        hit,
      ),
      refl,
    )

-- what `execute` does with the epoch
abbrev runs_with : Execution → Epoch → Proc (Unit {0})
runs_with x Epoch.unbound = fail_closed x
runs_with x Epoch.not_wanted = bind (run_verb x none) (λ result. finalize x none result)
runs_with x (Epoch.bound n) = bind (run_verb x (some n)) (λ result. finalize x (some n) result)

bound_calls :
    (x : Execution) (n : ℕ) (d m : Db) (c : Call)
    → Bound (target x) n d
    → Asks d (runs_with x (Epoch.bound n)) c m
    → Bound (target x) n m
bound_calls x n d m c b h =
    (asked (Bound (target x) n) (λ c. Unit) d m (runs_with x (Epoch.bound n)) c
      (run-Safe (Keeping x n) (λ c. Unit) x (permits x n) (ends x n) (λ work c m. tt) (some n)) b
      h).0

wants_epoch : (x : Execution) → is_boot x.kind ≡ true → want_epoch x ≡ bind_epoch x
unfolding want_epoch
wants_epoch x b = rw b refl

bind_epoch_calls :
    (x : Execution) (d m : Db) (c : Call)
    → Asks d
        (bind
          (bind_epoch x)
          (λ epoch. notify (Notice.stamp_lease_state (target x)) (runs_with x epoch)))
        c
        m
    → Bound (target x) (d.journal.next_execution_epoch + 1) m
unfolding bind_epoch issue_execution_epoch
bind_epoch_calls x d m c (inr h) = absurd (no_calls x d m c h)
bind_epoch_calls x d m c (inl (inr h)) = absurd (no_calls x (issue_db d).1 m c h)
bind_epoch_calls x d m c (inl (inl h)) =
    by_answer (bind_db (target x) n x.bind_now (issue_db d).1).0 refl h
  where
    n : ℕ
    n = d.journal.next_execution_epoch + 1

    by_answer :
        (o : Option (Unit {0}))
        → (bind_db (target x) n x.bind_now (issue_db d).1).0 ≡ o
        → Asks
            (bind_db (target x) n x.bind_now (issue_db d).1).1
            (runs_with x (elim o [ none ↦ Epoch.unbound | some _ ↦ Epoch.bound n ]))
            c
            m
        → Bound (target x) n m
    by_answer none e h = absurd (no_calls x _ m c h)
    by_answer (some u) e h =
        bound_calls x n _ m c (Bound-Bound (target x) n x.bind_now (issue_db d).1 u e) h

-- At every call that a start, resume or fork makes, of the runtime or of the guest, its instance has
-- a row with a new execution epoch, one above the counter that the run started from: whatever is
-- answered and whatever fails, where no other task writes meanwhile. So a boot whose epoch cannot be
-- issued and bound makes no call.
pub boot_waits_for_epoch :
    (x : Execution) (d m : Db) (c : Call)
    → is_boot x.kind ≡ true
    → Asks d (execute x) c m
    → Bound (target x) (d.journal.next_execution_epoch + 1) m
unfolding execute
boot_waits_for_epoch x d m c b h =
    let k : Epoch → Proc (Unit {0}) =
      λ epoch. notify (Notice.stamp_lease_state (target x)) (runs_with x epoch) in
    bind_epoch_calls x d m c (subst (λ p. Asks d (bind p k) c m) (wants_epoch x b) h)
