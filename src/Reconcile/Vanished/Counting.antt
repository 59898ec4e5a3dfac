-- ===== src/Reconcile/Vanished/Counting.antt =====
-- The counts that the passes of `reconcile_vanished_sandboxes`
-- (crates/barista-node-agent/src/reconcile.rs) leave behind.
use Prim.Native.String.{String}
use text.Mathlib.Text.{◌==◌ as str_eq}
use text.Mathlib.TextEquality.{eq_iff}
use mathlib.Core.Path.{subst}
use text.Mathlib.TextPositions.{eq_refl}
use barista_sh.Base.{
  ℕ, suc, ◌≤◌, Bool, true, false, not, ◌&&◌, Bool-cases, Option, none, some, List, [], ◌∷◌,
  if◌then◌else◌, ◌≡◌, inl, inr, refl, sym, ap, ◌∙◌, arith,
}
use barista_sh.Base.Int.{ℤ}
use barista_sh.Contract.{InstanceState}
use barista_sh.Journal.Instances.{set_instance_state}
use barista_sh.Journal.Snapshots.{Db}
use barista_sh.Node.Process.{Proc, done, call, bind}
use barista_sh.Node.Runtime.{Sandbox, Answer, ok, err, Call, Reply}
use barista_sh.Node.Submit.{Config}
use barista_sh.Node.Sequential.{run, run-bind}
use barista_sh.Node.Executor.Steps.{on_journal}
use barista_sh.Reconcile.Vanished.{
  contains, Counts, misses, forget, retain, counted_one, overdue, fail_vanished, walk, stamp_each,
  running_ids, owners, inspected, reconcile_vanished_sandboxes,
}

-- The instances that a pass saw RUNNING in the journal, and those whose sandbox it saw.
pub record Pass : Type 0 where
  pub running : List String
  pub present : List String

-- What a pass saw: nothing, where the backend does not enumerate or its inventory failed.
abbrev pub seen : Config → Answer (List Sandbox) → Db → Option Pass
seen cfg (err _) d = none
seen cfg (ok sandboxes) d =
    if cfg.enumerates_sandboxes
    then some (record { running = running_ids d.journal.instances; present = owners sandboxes })
    else none

abbrev missed : String → Pass → Bool
missed id p = contains id p.running && not (contains id p.present)

-- In how many of the passes that saw something, the latest first, the instance was missed without a
-- break.
abbrev pub streak : String → List (Option Pass) → ℕ
streak id [] = 0
streak id (none ∷ ps) = streak id ps
streak id (some p ∷ ps) = if missed id p then suc (streak id ps) else 0

abbrev pub counted : List String → List String → Counts → Counts
counted present [] counts = counts
counted present (id ∷ ids) counts = counted present ids (counted_one present id counts)

-- An instance has one row.
abbrev pub Distinct : List String → Type 0
Distinct [] = Unit
Distinct (id ∷ ids) = (contains id ids ≡ false) × Distinct ids

-- The counts after a number of passes, each run on the database of its time, and what they saw.
pub data Followed : List (Option Pass) → Counts → Type 0 where
  begins : Followed [] []
  goes_on :
      {ps : List (Option Pass)} {counts : Counts} (cfg : Config) (now : ℤ)
      (answers : (c : Call) → Reply c) (d : Db)
      → Distinct (running_ids d.journal.instances)
      → Followed ps counts
      → Followed
          (seen cfg (answers Call.list_sandboxes) d ∷ ps)
          (run answers d (reconcile_vanished_sandboxes cfg now counts)).0

pub same : (i j : String) → str_eq i j ≡ true → i ≡ j
same i j e = (eq_iff i j).0 e

pub forgotten : (id : String) (counts : Counts) → misses id (forget id counts) ≡ 0
forgotten id [] = refl
forgotten id ((j, n) ∷ rest) = ground (arith, forgotten id rest)

fewer_if :
    (i id : String) (counts : Counts)
    → str_eq id i ≡ false
    → misses i (forget id counts) ≤ misses i counts
fewer_if i id [] e = omega arith
fewer_if i id ((j, n) ∷ rest) e = elim (Bool-cases (str_eq j id)) [
  | inl t ↦
      let apart : str_eq j i ≡ false = subst (λ z. str_eq z i ≡ false) (sym (same j id t)) e in
      ground (arith, fewer_if i id rest e, t, apart)
  | inr f ↦ ground (arith, fewer_if i id rest e, f)
]

-- Forgetting an instance leaves no count larger.
misses-forget : (i id : String) (counts : Counts) → misses i (forget id counts) ≤ misses i counts
misses-forget i id counts = elim (Bool-cases (str_eq id i)) [
  | inl t ↦
      subst (λ z. misses i (forget z counts) ≤ misses i counts) (sym (same id i t))
        (omega (arith, forgotten i counts))
  | inr f ↦ fewer_if i id counts f
]

pub not_retained :
    (i : String) (ids : List String) (counts : Counts)
    → contains i ids ≡ false
    → misses i (retain ids counts) ≡ 0
not_retained i ids [] e = refl
not_retained i ids ((j, n) ∷ rest) e = elim (Bool-cases (str_eq j i)) [
  | inl t ↦
      let gone : contains j ids ≡ false =
        subst (λ z. contains z ids ≡ false) (sym (same j i t)) e in
      ground (arith, not_retained i ids rest e, gone)
  | inr f ↦ ground (arith, not_retained i ids rest e, f)
]

pub retained :
    (i : String) (ids : List String) (counts : Counts)
    → contains i ids ≡ true
    → misses i (retain ids counts) ≤ misses i counts
retained i ids [] e = omega arith
retained i ids ((j, n) ∷ rest) e = elim (Bool-cases (str_eq j i)) [
  | inl t ↦
      let stays : contains j ids ≡ true = subst (λ z. contains z ids ≡ true) (sym (same j i t)) e in
      ground (arith, retained i ids rest e, stays, t)
  | inr f ↦ ground (arith, retained i ids rest e, f)
]

pub counted_other :
    (present : List String) (i id : String) (counts : Counts)
    → str_eq id i ≡ false
    → misses i (counted_one present id counts) ≤ misses i counts
counted_other present i id counts e = ground (arith, fewer_if i id counts e, e)

counted_same :
    (present : List String) (id : String) (counts : Counts)
    → misses id (counted_one present id counts)
      ≤ (if contains id present then 0 else suc (misses id counts))
counted_same present id counts = ground (arith, forgotten id counts, eq_refl id)

counted_rest :
    (present ids : List String) (i : String) (counts : Counts)
    → contains i ids ≡ false
    → misses i (counted present ids counts) ≤ misses i counts
counted_rest present [] i counts e = omega arith
counted_rest present (id ∷ ids) i counts e = ground (
  arith,
  counted_other present i id counts,
  counted_rest present ids i (counted_one present id counts),
)

counted_in :
    (present ids : List String) (i : String) (counts : Counts)
    → Distinct ids
    → contains i ids ≡ true
    → misses i (counted present ids counts)
      ≤ (if contains i present then 0 else suc (misses i counts))
counted_in present [] i counts d e = absurd cc
counted_in present (id ∷ ids) i counts (fresh, d) e = elim (Bool-cases (str_eq id i)) [
  | inl t ↦
      subst
        (λ z.
          misses z (counted present ids (counted_one present id counts))
          ≤ (if contains z present then 0 else suc (misses z counts)))
        (same id i t)
        (ground (
          arith,
          counted_rest present ids id (counted_one present id counts) fresh,
          counted_same present id counts,
        ))
  | inr f ↦ ground (
    arith,
    f,
    e,
    counted_in present ids i (counted_one present id counts) d,
    counted_other present i id counts f,
  )
]

-- The counts that the loop ends with.
walk-counts :
    (answers : (c : Call) → Reply c) (present : List String) (now : ℤ) (ids : List String)
    (counts : Counts) (d : Db)
    → (run answers d (walk present now ids counts)).0.0 ≡ counted present ids counts
unfolding walk fail_vanished
walk-counts answers present now [] counts d = refl
walk-counts answers present now (id ∷ ids) counts d =
    elim (Bool-cases (overdue present id counts)) [
      | inl t ↦
          rw
            (
              t,
              run-bind answers (on_journal (set_instance_state id InstanceState.failed now) d)
                  (walk present now ids (counted_one present id counts)) _,
            )
            (walk-counts answers present now ids (counted_one present id counts)
              (on_journal (set_instance_state id InstanceState.failed now) d))
      | inr f ↦ rw f (walk-counts answers present now ids (counted_one present id counts) d)
    ]

pub stamped :
    (answers : (c : Call) → Reply c) (ids : List String) (counts : Counts) (d : Db)
    → run answers d (bind (stamp_each ids) (λ u. done counts)) ≡ (counts, d)
unfolding stamp_each
stamped answers [] counts d = refl
stamped answers (id ∷ ids) counts d = stamped answers ids counts d

-- What a pass makes of the counts, by what it saw.
abbrev pub next_counts : Option Pass → Counts → Counts
next_counts none counts = counts
next_counts (some p) counts = counted p.present p.running (retain p.running counts)

inspected-counts :
    (cfg : Config) (now : ℤ) (counts : Counts) (answers : (c : Call) → Reply c)
    (a : Answer (List Sandbox)) (d : Db)
    → cfg.enumerates_sandboxes ≡ true
    → (run answers d (inspected now counts a)).0 ≡ next_counts (seen cfg a d) counts
unfolding inspected
inspected-counts cfg now counts answers (err e) d on = refl
inspected-counts cfg now counts answers (ok present) d on =
    let running = running_ids d.journal.instances in
    let w = walk (owners present) now running (retain running counts) in
    let k : Counts × List String → Proc Counts =
      λ found. bind (stamp_each (found.1)) (λ u. done (found.0)) in
    rw on (
      ap (λ (r : Counts × Db). r.0) (run-bind answers d w k)
      ∙ ap (λ (r : Counts × Db). r.0)
          (stamped answers ((run answers d w).0.1) ((run answers d w).0.0) ((run answers d w).1))
      ∙ walk-counts answers (owners present) now running (retain running counts) d)

pub not_seen :
    (cfg : Config) (a : Answer (List Sandbox)) (d : Db)
    → cfg.enumerates_sandboxes ≡ false
    → seen cfg a d ≡ none
not_seen cfg (err e) d off = refl
not_seen cfg (ok present) d off = rw off refl

pub pass-counts :
    (cfg : Config) (now : ℤ) (counts : Counts) (answers : (c : Call) → Reply c) (d : Db)
    → (run answers d (reconcile_vanished_sandboxes cfg now counts)).0
      ≡ next_counts (seen cfg (answers Call.list_sandboxes) d) counts
unfolding reconcile_vanished_sandboxes
pass-counts cfg now counts answers d = by_backend cfg.enumerates_sandboxes refl
  where
    by_backend :
        (b : Bool)
        → cfg.enumerates_sandboxes ≡ b
        → (run answers d (
            if not b
            then done counts
            else call Call.list_sandboxes (λ sandboxes. inspected now counts sandboxes))).0
          ≡ next_counts (seen cfg (answers Call.list_sandboxes) d) counts
    by_backend true on = inspected-counts cfg now counts answers (answers Call.list_sandboxes) d on
    by_backend false off =
        ap (λ o. next_counts o counts) (sym (not_seen cfg (answers Call.list_sandboxes) d off))

pub kept_by :
    (i : String) (o : Option Pass) (ps : List (Option Pass)) (counts : Counts)
    → ((p : Pass) → o ≡ some p → Distinct p.running)
    → misses i counts ≤ streak i ps
    → misses i (next_counts o counts) ≤ streak i (o ∷ ps)
kept_by i none ps counts d h = h
kept_by i (some p) ps counts d h = elim (Bool-cases (contains i p.running)) [
  | inl t ↦ ground (
    arith,
    t,
    h,
    retained i p.running counts t,
    counted_in p.present p.running i (retain p.running counts) (d p refl) t,
  )
  | inr f ↦ ground (
    arith,
    f,
    not_retained i p.running counts f,
    counted_rest p.present p.running i (retain p.running counts) f,
  )
]

pub seen-Distinct :
    (cfg : Config) (a : Answer (List Sandbox)) (d : Db) (p : Pass)
    → Distinct (running_ids d.journal.instances)
    → seen cfg a d ≡ some p
    → Distinct p.running
seen-Distinct cfg (err e) d p h s = absurd cc
seen-Distinct cfg (ok present) d p h s = elim (Bool-cases cfg.enumerates_sandboxes) [
  | inl on ↦ subst Distinct (ground (arith, on)) h
  | inr off ↦ absurd (ground (arith, off))
]

-- The count of an instance is at most the passes in a row that missed it.
pub misses-streak :
    (i : String) (ps : List (Option Pass)) (counts : Counts)
    → Followed ps counts
    → misses i counts ≤ streak i ps
misses-streak i _ _ begins = omega arith
misses-streak i _ _ (goes_on {ps = ps} {counts = counts} cfg now answers d h f) =
    subst (λ c. misses i c ≤ streak i (seen cfg (answers Call.list_sandboxes) d ∷ ps))
      (sym (pass-counts cfg now counts answers d))
      (kept_by i (seen cfg (answers Call.list_sandboxes) d) ps counts
        (λ p s. seen-Distinct cfg (answers Call.list_sandboxes) d p h s)
        (misses-streak i ps counts f))
