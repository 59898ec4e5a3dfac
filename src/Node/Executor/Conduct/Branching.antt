-- ===== src/Node/Executor/Conduct/Branching.antt =====
-- The verbs of `execute` (crates/barista-node-agent/src/ops.rs) that make an instance from a
-- snapshot or from a capsule.
use barista_sh.Base.{
  ◌==◌, Bool-cases, Option, none, some, List, [], ◌∷◌, if◌then◌else◌, ◌≡◌, inl, inr, refl,
}
use barista_sh.Journal.Snapshots.{Db}
use barista_sh.Capsule.Rows.{CapsuleObject}
use barista_sh.Node.Runtime.{Call, ForkOutcome, Answer, ok, err, ObjectBytes}
use barista_sh.Node.Payload.{OpPayload, ForkRequest, CapsuleRequest}
use barista_sh.Node.Process.{Proc, done, bind}
use barista_sh.Node.Keeps.{Safe, seq, when, answered, reading}
use barista_sh.Node.Executor.Steps.{Execution, fails_as}
use barista_sh.Node.Executor.Conduct.{Permits}
use barista_sh.Node.Executor.Conduct.Shared.{runtime, with_row-Safe}
use barista_sh.Contract.{ErrorReason}
use barista_sh.Capsule.Rows.{CapsuleRow}
use barista_sh.Node.Process.{pure}
use barista_sh.Node.Executor.Steps.{bootstrap, fails}
use barista_sh.Node.Executor.Branch.{
  forked, run_fork, Loaded, and_object, fetch_all, load_capsule_objects, restored,
  run_restore_capsule,
}

module _ (W : (R : Type 0) → (Db → Option R × Db) → Type 0) (C : Call → Type 0) (x : Execution)
    (may : Permits W C x) where
  forked-Safe : (outcome : ForkOutcome) → Safe W C (forked x outcome)
  unfolding forked
  forked-Safe outcome = (
    may.measured outcome.mode,
    λ _. elim (Bool-cases outcome.froze_source) [ inl f ↦ rw f tt | inr f ↦ rw f tt ],
  )

  pub fork-Safe : (f : ForkRequest) → x.payload ≡ OpPayload.fork f → Safe W C (run_fork x f)
  unfolding run_fork fails_as
  fork-Safe f e = (
    may.stepped "runtime.fork",
    λ _. with_row-Safe W C x may _ (λ r. (
      runtime W C x may e
          (Call.fork f.source_instance_id f.source_snapshot_id r.spec (bootstrap r) f.require_cow)
          (refl, refl, refl),
      λ a. answered W C (λ _. Unit) _ _ a (λ o. forked-Safe o) (λ g. tt),
    )),
  )

  fetch_all-Safe :
      (c : CapsuleRequest)
      → x.payload ≡ OpPayload.restore_capsule c
      → (os : List CapsuleObject) → Safe W C (fetch_all os)
  unfolding fetch_all
  fetch_all-Safe c e [] = tt
  fetch_all-Safe c e (o ∷ os) = (
    runtime W C x may e (Call.fetch o.digest) tt,
    λ a. got a (fetch_all os) (fetch_all-Safe c e os),
  )
    where
      got :
          (a : Answer (Option ObjectBytes)) (rest : Proc Loaded)
          → Safe W C rest
          → Safe W C (elim a [
            | err _ ↦
                pure (Loaded.not_loaded ErrorReason.capsule_verification_failed "not verified")
            | ok none ↦
                pure (Loaded.not_loaded ErrorReason.capsule_verification_failed "not stored")
            | ok (some b) ↦
                if b.length == o.length
                then bind rest (λ more. done (and_object b more))
                else pure (Loaded.not_loaded ErrorReason.capsule_verification_failed "wrong length")
          ])
      got (err f) rest h = tt
      got (ok none) rest h = tt
      got (ok (some b)) rest h =
          when W C (λ _. Unit) (b.length == o.length) _ _
            (λ _. seq W C (λ _. Unit) rest _ h (λ more. tt)) (λ _. tt)

  restored-Safe :
      (c : CapsuleRequest)
      → x.payload ≡ OpPayload.restore_capsule c
      → (bs : List ObjectBytes) → Safe W C (restored x bs)
  unfolding restored fails_as
  restored-Safe c e bs = (
    may.stepped "runtime.restore_from_objects",
    λ _. with_row-Safe W C x may _ (λ r. (
      runtime W C x may e (Call.restore_from_objects bs r.spec (bootstrap r)) tt,
      λ a. answered W C (λ _. Unit) _ _ a (λ u. tt) (λ g. tt),
    )),
  )

  loaded-Safe :
      (c : CapsuleRequest)
      → x.payload ≡ OpPayload.restore_capsule c
      → Safe W C (load_capsule_objects c.capsule_id)
  unfolding load_capsule_objects
  loaded-Safe c e = reading W C (λ _. Unit) _ _ (λ o. row o)
    where
      row :
          (o : Option (Option CapsuleRow))
          → Safe W C (elim o [
            | none ↦ pure (Loaded.not_loaded ErrorReason.unspecified "reading the capsule failed")
            | some none ↦
                pure (Loaded.not_loaded ErrorReason.capsule_incompatible "no longer registered")
            | some (some r) ↦ fetch_all r.manifest.objects
          ])
      row none = tt
      row (some none) = tt
      row (some (some r)) = fetch_all-Safe c e r.manifest.objects

  pub capsule-Safe :
      (c : CapsuleRequest)
      → x.payload ≡ OpPayload.restore_capsule c
      → Safe W C (run_restore_capsule x c)
  unfolding run_restore_capsule
  capsule-Safe c e = (
    may.stepped "capsule.read_objects",
    λ _.
        seq W C (λ _. Unit) (load_capsule_objects c.capsule_id) _ (loaded-Safe c e) (λ l. use_it l),
  )
    where
      use_it :
          (l : Loaded)
          → Safe W C (elim l [
            | Loaded.not_loaded reason message ↦ fails reason message
            | Loaded.loaded bs ↦ restored x bs
          ])
      use_it (Loaded.not_loaded reason message) = tt
      use_it (Loaded.loaded bs) = restored-Safe c e bs
