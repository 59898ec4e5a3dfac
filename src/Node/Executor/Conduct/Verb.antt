-- ===== src/Node/Executor/Conduct/Verb.antt =====
-- The other verbs of `execute` (crates/barista-node-agent/src/ops.rs), and all of them together.
use barista_sh.Base.{
  ℕ, Bool, true, false, Option, none, some, List, [], ◌∷◌, if◌then◌else◌, ◌≡◌, refl, sym,
}
use barista_sh.Contract.Spec.{InstanceSpec}
use barista_sh.Journal.Operations.{succeeded}
use barista_sh.Journal.Snapshots.{Db, SnapshotRow}
use barista_sh.Node.Runtime.{Call, ok, err}
use barista_sh.Node.Payload.{OpPayload}
use barista_sh.Node.Process.{done, bind}
use barista_sh.Node.Keeps.{Safe, seq, optional, answered, reading}
use barista_sh.Node.Executor.Steps.{Execution, target, Done, step, degrade, fails_as}
use barista_sh.Node.Executor.Conduct.{Deletes, Permits}
use barista_sh.Node.Executor.Conduct.Shared.{runtime, with_row-Safe}
use mathlib.Core.Path.{subst}
use barista_sh.Journal.Snapshots.{delete_snapshot}
use barista_sh.Node.Process.{pure, update_db}
use barista_sh.Node.Executor.Steps.{bootstrap}
use barista_sh.Node.Executor.Capture.{run_pause, run_create_snapshot, run_delete_snapshot}
use barista_sh.Node.Executor.Resume.{run_resume}
use barista_sh.Node.Executor.Branch.{run_fork, run_restore_capsule}
use barista_sh.Node.Executor.Verbs.{
  run_create, run_start, run_stop, forget_each, forget_snapshots, run_destroy, run_verb,
}
use barista_sh.Node.Executor.Conduct.Capturing.{
  pause-Safe, create_snapshot-Safe, delete_snapshot-Safe,
}
use barista_sh.Node.Executor.Conduct.Resuming.{resume-Safe}
use barista_sh.Node.Executor.Conduct.Branching.{fork-Safe, capsule-Safe}

module _ (W : (R : Type 0) → (Db → Option R × Db) → Type 0) (C : Call → Type 0) (x : Execution)
    (may : Permits W C x) where
  create-Safe :
      (spec : InstanceSpec) → x.payload ≡ OpPayload.create spec → Safe W C (run_create x spec)
  unfolding run_create
  create-Safe spec e = (
    may.stepped "runtime.create",
    λ _.
        with_row-Safe W C x may _
          (λ r. (runtime W C x may e (Call.create spec (bootstrap r)) refl, λ a. tt)),
  )

  start-Safe : x.payload ≡ OpPayload.start → Safe W C (run_start x)
  unfolding run_start
  start-Safe e = (
    may.stepped "runtime.start",
    λ _.
        with_row-Safe W C x may _
          (λ r. (runtime W C x may e (Call.start (target x) r.spec (bootstrap r)) refl, λ a. tt)),
  )

  stop-Safe : (grace : ℕ) → x.payload ≡ OpPayload.stop grace → Safe W C (run_stop x grace)
  unfolding run_stop
  stop-Safe grace e = (
    may.stepped "runtime.stop",
    λ _. (runtime W C x may e (Call.stop (target x) grace) (refl, refl), λ a. tt),
  )

  forget_each-Safe :
      x.payload ≡ OpPayload.destroy false → (l : List SnapshotRow) → Safe W C (forget_each x l)
  unfolding forget_each
  forget_each-Safe e [] = tt
  forget_each-Safe e (s ∷ rest) = (
    runtime W C x may e (Call.delete_snapshot s.snapshot_id) refl,
    λ a.
        seq W C (λ _. Unit)
          (elim a [
            | err _ ↦ degrade x "a snapshot outlived the instance it belonged to"
            | ok _ ↦ bind (update_db (delete_snapshot s.snapshot_id)) (λ written. elim written [
              | some _ ↦ done []
              | none ↦ degrade x "a snapshot's journal row could not be removed"
            ])
          ])
          _
          (answered W C (λ _. Unit) _ _ a
            (λ u. (
              may.deletes s.snapshot_id (subst (λ p. Deletes p s.snapshot_id) (sym e) refl),
              λ w. optional W C (λ _. Unit) _ _ w tt (λ v. tt),
            ))
            (λ f. tt))
          (λ ds. seq W C (λ _. Unit) (forget_each x rest) _ (forget_each-Safe e rest) (λ more. tt)),
  )

  forgot : x.payload ≡ OpPayload.destroy false → Safe W C (forget_snapshots x)
  unfolding forget_snapshots
  forgot e =
      reading W C (λ _. Unit) _ _
        (λ o. optional W C (λ _. Unit) _ _ o tt (λ l. forget_each-Safe e l))

  destroy-Safe : (keep : Bool) → x.payload ≡ OpPayload.destroy keep → Safe W C (run_destroy x keep)
  unfolding run_destroy fails_as
  destroy-Safe keep e = (
    may.stepped "runtime.destroy",
    λ _. (
      runtime W C x may e (Call.destroy (target x)) refl,
      λ a. answered W C (λ _. Unit) _ _ a (λ u. forgetting keep e) (λ f. tt),
    ),
  )
    where
      forgetting :
          (b : Bool)
          → x.payload ≡ OpPayload.destroy b
          → Safe W C (
              if b
              then pure {A = Done} (succeeded, [])
              else bind
                  (step x "snapshots.forget")
                  (λ _. bind (forget_snapshots x) (λ ds. pure {A = Done} (succeeded, ds))))
      forgetting true k = tt
      forgetting false k = (
        may.stepped "snapshots.forget",
        λ _. seq W C (λ _. Unit) (forget_snapshots x) _ (forgot k) (λ ds. tt),
      )

  -- A verb keeps what its own writes and calls keep, whatever is answered and whatever fails.
  pub verb-Safe : (epoch : Option ℕ) → Safe W C (run_verb x epoch)
  unfolding run_verb
  verb-Safe epoch = by_payload x.payload refl
    where
      by_payload :
          (p : OpPayload)
          → x.payload ≡ p
          → Safe W C (elim p [
            | OpPayload.create spec ↦ run_create x spec
            | OpPayload.start ↦ run_start x
            | OpPayload.stop grace ↦ run_stop x grace
            | OpPayload.pause memory ↦ run_pause x memory
            | OpPayload.resume sid memory ↦ run_resume x epoch sid memory
            | OpPayload.create_snapshot name ↦ run_create_snapshot x name
            | OpPayload.delete_snapshot sid ↦ run_delete_snapshot x sid
            | OpPayload.destroy keep ↦ run_destroy x keep
            | OpPayload.fork f ↦ run_fork x f
            | OpPayload.restore_capsule c ↦ run_restore_capsule x c
          ])
      by_payload (OpPayload.create spec) e = create-Safe spec e
      by_payload OpPayload.start e = start-Safe e
      by_payload (OpPayload.stop grace) e = stop-Safe grace e
      by_payload (OpPayload.pause memory) e = pause-Safe W C x may memory e
      by_payload (OpPayload.resume sid memory) e = resume-Safe W C x may sid memory e epoch
      by_payload (OpPayload.create_snapshot name) e = create_snapshot-Safe W C x may name e
      by_payload (OpPayload.delete_snapshot sid) e = delete_snapshot-Safe W C x may sid e
      by_payload (OpPayload.destroy keep) e = destroy-Safe keep e
      by_payload (OpPayload.fork f) e = fork-Safe W C x may f e
      by_payload (OpPayload.restore_capsule c) e = capsule-Safe W C x may c e
