-- ===== src/Node/Executor/Conduct/Capturing.antt =====
-- The verbs of `execute` (crates/barista-node-agent/src/ops.rs) that take or delete a snapshot.
use Prim.Native.String.{String}
use barista_sh.Base.{
  Bool, true, false, not, ◌&&◌, Bool-cases, Option, none, some, List, [], ◌++◌, if◌then◌else◌, ◌≡◌,
  inl, inr, refl, sym,
}
use barista_sh.Contract.Spec.{HookOutcome}
use barista_sh.Journal.Operations.{succeeded, failed}
use barista_sh.Journal.Snapshots.{Db}
use barista_sh.Node.Runtime.{Call, SnapshotRef, RuntimeError, Answer, ok, err}
use barista_sh.Node.Payload.{OpPayload}
use barista_sh.Node.Process.{done, bind}
use barista_sh.Node.Keeps.{Safe, seq, when, optional, answered, reading}
use barista_sh.Node.Executor.Steps.{Execution, target, Done, degrade, fails_as}
use barista_sh.Node.Executor.Conduct.{Captures, Deletes, Permits}
use barista_sh.Node.Executor.Conduct.Shared.{runtime, hook-Safe}
use mathlib.Core.Path.{subst}
use barista_sh.Contract.{ErrorReason}
use barista_sh.Node.Process.{call, pure}
use barista_sh.Node.Executor.Guest.{HookDone, run_pre_snapshot_hook}
use barista_sh.Node.Executor.Capture.{
  is_memory, record_snapshot, paused, run_pause, compensate, captured, froze, run_create_snapshot,
  run_delete_snapshot,
}

module _ (W : (R : Type 0) → (Db → Option R × Db) → Type 0) (C : Call → Type 0) (x : Execution)
    (may : Permits W C x) where
  record_snapshot-Safe :
      (s : SnapshotRef) (hook : Option HookOutcome) (name : String)
      → Captures x.payload
      → Safe W C (record_snapshot x s hook name)
  unfolding record_snapshot
  record_snapshot-Safe s hook name c =
      reading W C (λ _. Unit) _ _ (λ o. (may.inserts _ _ c refl, λ r. tt))

  lost-Safe :
      (written memory : Bool) (ds : List String)
      → Safe W C (
          bind
            (if written
              then done []
              else degrade x "a snapshot was captured but could not be journaled")
            (λ lost.
              bind
                (if memory
                  then done []
                  else degrade x "paused without preserving memory: resuming will be a cold boot")
                (λ cold. pure {A = Done} (succeeded, ds ++ (lost ++ cold)))))
  lost-Safe true true ds = tt
  lost-Safe true false ds = tt
  lost-Safe false true ds = tt
  lost-Safe false false ds = tt

  paused-Safe :
      (memory : Bool) (s : SnapshotRef) (hook : Option HookOutcome) (ds : List String)
      → Captures x.payload
      → Safe W C (paused x memory s hook ds)
  unfolding paused
  paused-Safe memory s hook ds c =
      when W C (λ _. Unit) (memory && not (is_memory s.kind)) _ _ (λ _. tt)
        (λ _. (
          may.stepped "journal.snapshot",
          λ _.
              seq W C (λ _. Unit) (record_snapshot x s hook "") _ (record_snapshot-Safe s hook "" c)
                (λ written. lost-Safe written (is_memory s.kind) ds),
        ))

  fails_as-Safe : (e : RuntimeError) (ds : List String) → Safe W C (fails_as e ds)
  unfolding fails_as
  fails_as-Safe e ds = tt

  pub pause-Safe :
      (memory : Bool) → x.payload ≡ OpPayload.pause memory → Safe W C (run_pause x memory)
  unfolding run_pause
  pause-Safe memory e = (
    may.stepped "hook.pre_snapshot",
    λ _.
        seq W C (λ _. Unit) (run_pre_snapshot_hook x) _ (hook-Safe W C x may)
          (λ hook. (
            may.stepped "runtime.pause",
            λ _. (
              runtime W C x may e (Call.pause (target x)) refl,
              λ a.
                  answered W C (λ _. Unit) _ _ a
                    (λ s. paused-Safe memory s (hook.0) (hook.1) (subst Captures (sym e) tt))
                    (λ f. fails_as-Safe f (hook.1)),
            ),
          )),
  )

  compensate-Safe :
      (name : Option String) (s : SnapshotRef) (ds : List String)
      → x.payload ≡ OpPayload.create_snapshot name
      → Safe W C (compensate x s ds)
  unfolding compensate
  compensate-Safe name s ds e = (
    may.stepped "compensate.delete_snapshot",
    λ _. (runtime W C x may e (Call.delete_snapshot s.snapshot_id) tt, undone),
  )
    where
      undone :
          (a : Answer (Unit {0}))
          → Safe W C (
              bind
                (elim a [
                  | ok _ ↦ done []
                  | err _ ↦
                      degrade x "a snapshot was captured, not journaled, and not deleted again"
                ])
                (λ left. pure {A = Done} (
                  failed ErrorReason.unspecified "the snapshot could not be journaled",
                  ds ++ left,
                )))
      undone (ok _) = tt
      undone (err _) = tt

  captured-Safe :
      (name : Option String) (s : SnapshotRef) (hook : Option HookOutcome) (ds : List String)
      → x.payload ≡ OpPayload.create_snapshot name
      → Safe W C (captured x name s hook ds)
  unfolding captured
  captured-Safe name s hook ds e = (
    may.stepped "journal.snapshot",
    λ _.
        seq W C (λ _. Unit) (record_snapshot x s hook (elim name [ none ↦ "" | some n ↦ n ])) _
          (record_snapshot-Safe s hook _ (subst Captures (sym e) tt))
          (λ written.
            when W C (λ _. Unit) written _ _ (λ _. tt) (λ _. compensate-Safe name s ds e)),
  )

  pub create_snapshot-Safe :
      (name : Option String)
      → x.payload ≡ OpPayload.create_snapshot name
      → Safe W C (run_create_snapshot x name)
  unfolding run_create_snapshot
  create_snapshot-Safe name e = (
    may.stepped "hook.pre_snapshot",
    λ _.
        seq W C (λ _. Unit) (run_pre_snapshot_hook x) _ (hook-Safe W C x may)
          (λ hook. elim (Bool-cases (froze x)) [
            | inl f ↦
                rw f
                  (may.froze, λ _. (may.stepped "runtime.create_snapshot.frozen", λ _. taken hook))
            | inr f ↦ rw f (may.stepped "runtime.create_snapshot", λ _. taken hook)
          ]),
  )
    where
      taken :
          (hook : HookDone)
          → Safe W C (
              bind (call (Call.create_snapshot (target x) name) (λ r. done r)) (λ a. elim a [
                | ok s ↦ captured x name s (hook.0) (hook.1)
                | err f ↦ fails_as f (hook.1)
              ]))
      taken hook = (
        runtime W C x may e (Call.create_snapshot (target x) name) (refl, refl),
        λ a.
            answered W C (λ _. Unit) _ _ a (λ s. captured-Safe name s (hook.0) (hook.1) e)
              (λ f. fails_as-Safe f (hook.1)),
      )

  pub delete_snapshot-Safe :
      (sid : String)
      → x.payload ≡ OpPayload.delete_snapshot sid
      → Safe W C (run_delete_snapshot x sid)
  unfolding run_delete_snapshot
  delete_snapshot-Safe sid e = (
    may.stepped "runtime.delete_snapshot",
    λ _. (
      runtime W C x may e (Call.delete_snapshot sid) refl,
      λ a.
          answered W C (λ _. Unit) _ _ a
            (λ u. (
              may.stepped "journal.delete_snapshot",
              λ _. (
                may.deletes sid (subst (λ p. Deletes p sid) (sym e) refl),
                λ w. optional W C (λ _. Unit) _ _ w tt (λ v. tt),
              ),
            ))
            (λ f. fails_as-Safe f []),
    ),
  )
