-- ===== src/Reconcile/Vanished/Debounce.antt =====
-- The debounce of `reconcile_vanished_sandboxes` (crates/barista-node-agent/src/reconcile.rs).
use Prim.Native.String.{String}
use mathlib.Core.Path.{subst}
use barista_sh.Base.{
  ◌≤◌, Bool, true, false, not, Bool-cases, Option, none, some, List, ◌∷◌, if◌then◌else◌, ◌≡◌, inl,
  inr, refl, sym, ap, ◌∙◌, ◌⊎◌, arith,
}
use barista_sh.Base.Int.{ℤ}
use barista_sh.Contract.{InstanceState}
use barista_sh.Journal.Instances.{set_instance_state, entered}
use barista_sh.Journal.Snapshots.{Db}
use barista_sh.Node.Process.{Proc, done, call, bind}
use barista_sh.Node.Runtime.{Sandbox, Answer, ok, err, Call, Reply}
use barista_sh.Node.Submit.{Config}
use barista_sh.Node.Sequential.{run, run-bind, run-Runs, kept}
use barista_sh.Journal.Rows.{InstanceRow, of_instance}
use barista_sh.Journal.Table.{find, update, find-update, find-passes}
use barista_sh.Node.Keeps.{Safe}
use barista_sh.Node.Executor.Steps.{on_journal}
use barista_sh.Reconcile.Vanished.{
  contains, Counts, misses, retain, walk, stamp_each, running_ids, owners, inspected,
  reconcile_vanished_sandboxes,
}
use barista_sh.Reconcile.Vanished.Exact.{retain_in, misses-streak_exact}
use barista_sh.Reconcile.Vanished.Counting.{
  not_seen, Pass, seen, streak, Distinct, Followed, same, retained, stamped, misses-streak,
}
use barista_sh.Reconcile.Vanished.Failing.{Fails, walk-Fails, relaxed, FailedIn, walk_marks}

-- The row of every instance is as it was, or satisfies `S` and is FAILED.
abbrev pub OnlyFailed : (String → Type 0) → Db → Db → Type 0
OnlyFailed S d e =
    (id : String) (r : InstanceRow)
    → find (of_instance id) d.journal.instances ≡ some r
    → (find (of_instance id) e.journal.instances ≡ some r)
      ⊎ (S id
          × (s : InstanceRow) × (find (of_instance id) e.journal.instances ≡ some s)
          × (s.state ≡ InstanceState.failed))

one_id :
    (i id : String) (r : InstanceRow) → of_instance i r ≡ true → of_instance id r ≡ true → i ≡ id
one_id i id r a b = sym (same r.instance_id i a) ∙ same r.instance_id id b

failed-Only :
    (S : String → Type 0) (now : ℤ) (id : String) (d m : Db)
    → S id
    → OnlyFailed S d m
    → OnlyFailed S d (on_journal (set_instance_state id InstanceState.failed now) m)
unfolding set_instance_state
failed-Only S now id d m h only i r e = elim (only i r e) [
  | inl same ↦ elim (Bool-cases (of_instance id r)) [
    | inl t ↦
        let hit = find-passes (of_instance i) m.journal.instances r same in
        inr (
          subst S (sym (one_id i id r hit t)) h,
          entered InstanceState.failed now r,
          ground (arith, found, same, t),
          refl,
        )
    | inr f ↦ inl (ground (arith, found, same, f))
  ]
  | inr (hit, s, at, failed) ↦ inr (
    hit,
    if of_instance id s then entered InstanceState.failed now s else s,
    ground (arith, found, at),
    ground (arith, failed),
  )
]
  where
    found :
        find
          (of_instance i)
          (update (of_instance id) (entered InstanceState.failed now) m.journal.instances)
        ≡ elim (find (of_instance i) m.journal.instances) [
          | none ↦ none
          | some r ↦ some (if of_instance id r then entered InstanceState.failed now r else r)
        ]
    found =
        find-update (of_instance i) (of_instance id) (entered InstanceState.failed now)
          m.journal.instances (λ r. refl)

inspected-Only :
    (ps : List (Option Pass)) (counts : Counts) (cfg : Config) (now : ℤ)
    (answers : (c : Call) → Reply c) (d : Db) (a : Answer (List Sandbox))
    → Followed ps counts
    → Distinct (running_ids d.journal.instances)
    → cfg.enumerates_sandboxes ≡ true
    → OnlyFailed
        (λ id. 3 ≤ streak id (seen cfg a d ∷ ps))
        d
        (run answers d (inspected now counts a)).1
unfolding inspected
inspected-Only ps counts cfg now answers d (err e) h distinct on = λ id r e. inl e
inspected-Only ps counts cfg now answers d (ok sandboxes) h distinct on =
    let p : Pass = record {
      running = running_ids d.journal.instances;
      present = owners sandboxes;
    } in
    let w = walk p.present now p.running (retain p.running counts) in
    let k : Counts × List String → Proc Counts =
      λ found. bind (stamp_each (found.1)) (λ u. done (found.0)) in
    let S : String → Type 0 = λ id. 3 ≤ streak id (some p ∷ ps) in
    let ends : (run answers d (bind w k)).1 ≡ (run answers d w).1 =
      ap (λ (r : Counts × Db). r.1) (run-bind answers d w k)
      ∙ ap (λ (r : Counts × Db). r.1)
          (stamped answers ((run answers d w).0.1) ((run answers d w).0.0) ((run answers d w).1)) in
    let fails : Safe (Fails S now) (λ c. ⊥) w =
      walk-Fails S p.present now p.running (retain p.running counts) distinct
        (λ id within absent many. ground (
          arith,
          within,
          absent,
          many,
          misses-streak id ps counts h,
          retained id p.running counts within,
        )) in
    rw on (
      subst (λ e. OnlyFailed S d e) (sym ends)
        (kept (OnlyFailed S d) (λ c. ⊥) (λ _. Unit) d w (run answers d w).0 (run answers d w).1
          (relaxed (Fails S now) (λ R w. (m : Db) → OnlyFailed S d m → OnlyFailed S d (w m).1)
            (λ c. ⊥) w
            (λ R w f m only.
              subst (λ e. OnlyFailed S d e) (sym (f.2 m)) (failed-Only S now (f.0) d m (f.1) only))
            fails)
          (λ id r e. inl e) (run-Runs answers d w)).0)

-- What a pass does on the database `d`, by what it and the passes before it saw.
abbrev pub Debounced : Option Pass → List (Option Pass) → Db → Db → Type 0
Debounced o ps d e =
    OnlyFailed (λ id. 3 ≤ streak id (o ∷ ps)) d e
    × ((id : String) (p : Pass) (r : InstanceRow)
        → o ≡ some p
        → streak id (o ∷ ps) ≡ 3
        → find (of_instance id) d.journal.instances ≡ some r
        → FailedIn id e)

inspected-FailedIn :
    (ps : List (Option Pass)) (counts : Counts) (now : ℤ) (answers : (c : Call) → Reply c) (d : Db)
    (sandboxes : List Sandbox) (id : String) (r : InstanceRow)
    → Followed ps counts
    → Distinct (running_ids d.journal.instances)
    → streak id (
        some (record { running = running_ids d.journal.instances; present = owners sandboxes })
        ∷ ps)
      ≡ 3
    → find (of_instance id) d.journal.instances ≡ some r
    → FailedIn id (run answers d (inspected now counts (ok sandboxes))).1
unfolding inspected
inspected-FailedIn ps counts now answers d sandboxes id r h distinct three there =
    let running = running_ids d.journal.instances in
    let present = owners sandboxes in
    let w = walk present now running (retain running counts) in
    let k : Counts × List String → Proc Counts =
      λ found. bind (stamp_each (found.1)) (λ u. done (found.0)) in
    let ends : (run answers d (bind w k)).1 ≡ (run answers d w).1 =
      ap (λ (r : Counts × Db). r.1) (run-bind answers d w k)
      ∙ ap (λ (r : Counts × Db). r.1)
          (stamped answers ((run answers d w).0.1) ((run answers d w).0.0) ((run answers d w).1)) in
    let within : contains id running ≡ true = ground (arith, three) in
    let out : contains id present ≡ false = ground (arith, three) in
    let before : streak id ps ≡ 2 = ground (arith, three, within, out) in
    let count : misses id (retain running counts) ≡ 2 =
      retain_in id running counts within
      ∙ misses-streak_exact id ps counts h (omega (arith, before))
      ∙ before in
    subst (λ e. FailedIn id e) (sym ends)
      (walk_marks answers present now id running (retain running counts) d r distinct within out
        (omega (arith, count)) there)

inspected-Debounced :
    (ps : List (Option Pass)) (counts : Counts) (cfg : Config) (now : ℤ)
    (answers : (c : Call) → Reply c) (d : Db) (a : Answer (List Sandbox))
    → Followed ps counts
    → Distinct (running_ids d.journal.instances)
    → cfg.enumerates_sandboxes ≡ true
    → Debounced (seen cfg a d) ps d (run answers d (inspected now counts a)).1
inspected-Debounced ps counts cfg now answers d (err e) h distinct on = (
  inspected-Only ps counts cfg now answers d (err e) h distinct on,
  λ id p r s three there. absurd cc,
)
inspected-Debounced ps counts cfg now answers d (ok sandboxes) h distinct on = (
  inspected-Only ps counts cfg now answers d (ok sandboxes) h distinct on,
  λ id p r s three there.
      inspected-FailedIn ps counts now answers d sandboxes id r h distinct (rw on at three) there,
)

-- Where the counts are those of some number of passes, the next pass leaves every instance as it
-- is, but that it fails instances that it and the last two passes before it that saw the inventory,
-- and so three in a row, found RUNNING in the journal and without a sandbox. And it does fail an
-- instance that it finds so for the third time in a row, where its writes are carried out.
pub vanished_three_times :
    (ps : List (Option Pass)) (counts : Counts) (cfg : Config) (now : ℤ)
    (answers : (c : Call) → Reply c) (d : Db)
    → Followed ps counts
    → Distinct (running_ids d.journal.instances)
    → Debounced
        (seen cfg (answers Call.list_sandboxes) d)
        ps
        d
        (run answers d (reconcile_vanished_sandboxes cfg now counts)).1
unfolding reconcile_vanished_sandboxes
vanished_three_times ps counts cfg now answers d h distinct =
    by_backend cfg.enumerates_sandboxes refl
  where
    by_backend :
        (b : Bool)
        → cfg.enumerates_sandboxes ≡ b
        → Debounced
            (seen cfg (answers Call.list_sandboxes) d)
            ps
            d
            (run answers d (
              if not b
              then done counts
              else call Call.list_sandboxes (λ sandboxes. inspected now counts sandboxes))).1
    by_backend true on =
        inspected-Debounced ps counts cfg now answers d (answers Call.list_sandboxes) h distinct on
    by_backend false off = (
      λ id r e. inl e,
      λ id p r s three there.
          absurd (unseen p s (not_seen cfg (answers Call.list_sandboxes) d off)),
    )
      where
        unseen :
            (p : Pass)
            → seen cfg (answers Call.list_sandboxes) d ≡ some p
            → seen cfg (answers Call.list_sandboxes) d ≡ none
            → ⊥
        unseen p s n = cc (s, n)
