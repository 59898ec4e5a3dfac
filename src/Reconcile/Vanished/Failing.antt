-- ===== src/Reconcile/Vanished/Failing.antt =====
-- Which instances the loop of `reconcile_vanished_sandboxes`
-- (crates/barista-node-agent/src/reconcile.rs) fails.
use Prim.Native.String.{String}
use text.Mathlib.Text.{◌==◌ as str_eq}
use mathlib.Core.Path.{subst}
use text.Mathlib.TextPositions.{eq_refl}
use barista_sh.Base.{
  ◌+◌, ◌≤◌, true, false, Bool-cases, Option, none, some, List, [], ◌∷◌, if◌then◌else◌, ◌≡◌, inl,
  inr, refl, sym, arith,
}
use barista_sh.Base.Int.{ℤ}
use barista_sh.Contract.{InstanceState}
use barista_sh.Journal.Instances.{set_instance_state, entered}
use barista_sh.Journal.Snapshots.{Db}
use barista_sh.Node.Process.{Notice, Proc, done, look, write, call, notify}
use barista_sh.Node.Runtime.{Call, Reply}
use barista_sh.Node.Sequential.{run, run-bind, run-Runs, kept}
use barista_sh.Journal.Rows.{InstanceRow, of_instance}
use barista_sh.Journal.Table.{find, find-update, find-passes}
use barista_sh.Node.Keeps.{Safe, seq, when}
use barista_sh.Node.Executor.Steps.{on_journal}
use barista_sh.Reconcile.Vanished.{
  contains, Counts, misses, threshold, counted_one, overdue, fail_vanished, walk,
}
use barista_sh.Reconcile.Vanished.Exact.{one_other}
use barista_sh.Reconcile.Vanished.Counting.{Distinct, same, counted_other}

-- The write fails an instance that satisfies `S`.
abbrev pub Fails : (String → Type 0) → ℤ → (R : Type 0) → (Db → Option R × Db) → Type 0
Fails S now R w =
    (id : String) × S id
    × ((d : Db) → (w d).1 ≡ on_journal (set_instance_state id InstanceState.failed now) d)

fail_vanished-Fails :
    (S : String → Type 0) (id : String) (now : ℤ)
    → S id
    → Safe (Fails S now) (λ c. ⊥) (fail_vanished id now)
unfolding fail_vanished
fail_vanished-Fails S id now h = ((id, h, λ m. refl), λ o. announced o)
  where
    announced :
        (o : Option (Unit {0}))
        → Safe
            (Fails S now)
            (λ c. ⊥)
            (elim o [
              | none ↦ done false
              | some _ ↦ notify (Notice.state_changed id "" InstanceState.failed none) (
                  notify
                    (Notice.degradation id "" "the sandbox of this RUNNING instance has vanished")
                    (done true))
            ])
    announced none = tt
    announced (some u) = tt

overdue_missing :
    (present : List String) (id : String) (counts : Counts)
    → overdue present id counts ≡ true
    → (contains id present ≡ false) × (threshold ≤ misses id counts + 1)
overdue_missing present id counts t = (ground (arith, t), ground (arith, t))

contained_apart :
    (i id : String) (ids : List String)
    → contains id ids ≡ false
    → contains i ids ≡ true
    → str_eq id i ≡ false
contained_apart i id ids out within = elim (Bool-cases (str_eq id i)) [
  | inl t ↦ absurd (subst (λ z. contains z ids ≡ false → ⊥) (sym (same id i t)) (λ e. cc) out)
  | inr f ↦ f
]

pub walk-Fails :
    (S : String → Type 0) (present : List String) (now : ℤ) (ids : List String) (counts : Counts)
    → Distinct ids
    → ((id : String)
        → contains id ids ≡ true
        → contains id present ≡ false
        → threshold ≤ misses id counts + 1
        → S id)
    → Safe (Fails S now) (λ c. ⊥) (walk present now ids counts)
unfolding walk
walk-Fails S present now [] counts d late = tt
walk-Fails S present now (id ∷ ids) counts (fresh, d) late =
    let rest : Safe (Fails S now) (λ c. ⊥) (walk present now ids (counted_one present id counts)) =
      walk-Fails S present now ids (counted_one present id counts) d (λ i within absent many.
        late i (ground (arith, within)) absent (
          omega (
            arith,
            many,
            counted_other present i id counts (contained_apart i id ids fresh within),
          ))) in
    when (Fails S now) (λ c. ⊥) (λ _. Unit) (overdue present id counts) _ _
      (λ t.
        let (absent, many) = overdue_missing present id counts t in
        seq (Fails S now) (λ c. ⊥) (λ _. Unit) (fail_vanished id now) _
          (fail_vanished-Fails S id now (late id (ground (arith, eq_refl id)) absent many))
          (λ failed.
            seq (Fails S now) (λ c. ⊥) (λ _. Unit)
              (walk present now ids (counted_one present id counts)) _ rest (λ found. tt)))
      (λ f. rest)

pub relaxed :
    {A : Type 0} (V W : (R : Type 0) → (Db → Option R × Db) → Type 0) (C : Call → Type 0)
    (p : Proc A)
    → ((R : Type 0) (w : Db → Option R × Db) → V R w → W R w)
    → Safe V C p
    → Safe W C p
relaxed V W C (done a) h s = tt
relaxed V W C (look k) h s = λ r. relaxed V W C (k r) h (s r)
relaxed V W C (write {R} w k) h s = (h R w (s.0), λ r. relaxed V W C (k r) h (s.1 r))
relaxed V W C (call c k) h s = (s.0, λ r. relaxed V W C (k r) h (s.1 r))
relaxed V W C (notify n p) h s = relaxed V W C p h s

-- The instance has a row, and is FAILED.
abbrev pub FailedIn : String → Db → Type 0
FailedIn id e =
    (s : InstanceRow) × (find (of_instance id) e.journal.instances ≡ some s)
    × (s.state ≡ InstanceState.failed)

write_found :
    (i id : String) (now : ℤ) (m : Db) (r : InstanceRow)
    → find (of_instance i) m.journal.instances ≡ some r
    → find
        (of_instance i)
        (on_journal (set_instance_state id InstanceState.failed now) m).journal.instances
      ≡ some (if of_instance id r then entered InstanceState.failed now r else r)
unfolding set_instance_state
write_found i id now m r e = ground (
  arith,
  find-update (of_instance i) (of_instance id) (entered InstanceState.failed now)
      m.journal.instances (λ r. refl),
  e,
)

write-FailedIn :
    (i id : String) (now : ℤ) (m : Db)
    → FailedIn i m
    → FailedIn i (on_journal (set_instance_state id InstanceState.failed now) m)
write-FailedIn i id now m (s, e, f) = (
  if of_instance id s then entered InstanceState.failed now s else s,
  write_found i id now m s e,
  ground (arith, f),
)

own-FailedIn :
    (i : String) (now : ℤ) (m : Db) (r : InstanceRow)
    → find (of_instance i) m.journal.instances ≡ some r
    → FailedIn i (on_journal (set_instance_state i InstanceState.failed now) m)
own-FailedIn i now m r e =
    let hit = find-passes (of_instance i) m.journal.instances r e in
    (
      if of_instance i r then entered InstanceState.failed now r else r,
      write_found i i now m r e,
      ground (arith, hit),
    )

walk-FailedIn :
    (answers : (c : Call) → Reply c) (present : List String) (now : ℤ) (i : String)
    (ids : List String) (counts : Counts) (m : Db)
    → Distinct ids
    → FailedIn i m
    → FailedIn i (run answers m (walk present now ids counts)).1
walk-FailedIn answers present now i ids counts m d h =
    let w = walk present now ids counts in
    (kept (FailedIn i) (λ c. ⊥) (λ _. Unit) m w (run answers m w).0 (run answers m w).1
      (relaxed (Fails (λ id. Unit) now) (λ R w. (m : Db) → FailedIn i m → FailedIn i (w m).1)
        (λ c. ⊥) w
        (λ R w f m h. subst (λ e. FailedIn i e) (sym (f.2 m)) (write-FailedIn i (f.0) now m h))
        (walk-Fails (λ id. Unit) present now ids counts d (λ id a b c. tt)))
      h (run-Runs answers m w)).0

-- The loop fails an instance that is overdue.
pub walk_marks :
    (answers : (c : Call) → Reply c) (present : List String) (now : ℤ) (i : String)
    (ids : List String) (counts : Counts) (m : Db) (r : InstanceRow)
    → Distinct ids
    → contains i ids ≡ true
    → contains i present ≡ false
    → 2 ≤ misses i counts
    → find (of_instance i) m.journal.instances ≡ some r
    → FailedIn i (run answers m (walk present now ids counts)).1
unfolding walk fail_vanished
walk_marks answers present now i [] counts m r d e out many there = absurd cc
walk_marks answers present now i (id ∷ ids) counts m r (fresh, d) e out many there =
    elim (Bool-cases (overdue present id counts)) [
      | inl t ↦
          let m1 = on_journal (set_instance_state id InstanceState.failed now) m in
          let rest = walk present now ids (counted_one present id counts) in
          rw (t, run-bind answers m1 rest _)
            (elim (Bool-cases (str_eq id i)) [
              | inl own ↦
                  walk-FailedIn answers present now i ids (counted_one present id counts) m1 d (
                    subst
                      (λ z.
                        FailedIn i (on_journal (set_instance_state z InstanceState.failed now) m))
                      (sym (same id i own)) (own-FailedIn i now m r there))
              | inr other ↦
                  walk_marks answers present now i ids (counted_one present id counts) m1
                    (if of_instance id r then entered InstanceState.failed now r else r) d
                    (ground (arith, e, other)) out
                    (omega (arith, many, one_other present i id counts other))
                    (write_found i id now m r there)
            ])
      | inr f ↦ rw f (elim (Bool-cases (str_eq id i)) [
        | inl own ↦
            let late : overdue present i counts ≡ true = ground (arith, out, many) in
            absurd (cc (subst (λ z. overdue present z counts ≡ false) (same id i own) f, late))
        | inr other ↦
            walk_marks answers present now i ids (counted_one present id counts) m r d
              (ground (arith, e, other)) out
              (omega (arith, many, one_other present i id counts other)) there
      ])
    ]
