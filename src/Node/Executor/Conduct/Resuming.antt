-- ===== src/Node/Executor/Conduct/Resuming.antt =====
-- `OpPayload::Resume` in `execute` (crates/barista-node-agent/src/ops.rs).
use Prim.Native.String.{String}
use barista_sh.Base.{ℕ, Bool, true, false, Option, none, some, ◌≡◌, refl}
use barista_sh.Journal.Rows.{InstanceRow}
use barista_sh.Journal.Snapshots.{Db, SnapshotRow}
use barista_sh.Node.Runtime.{Call}
use barista_sh.Node.Payload.{OpPayload}
use barista_sh.Node.Submit.{flatten}
use barista_sh.Node.Keeps.{Keeps, Safe, after, seq, answered, reading}
use barista_sh.Node.Executor.Steps.{Execution, target, fails_as}
use barista_sh.Node.Executor.Conduct.{Permits}
use barista_sh.Node.Executor.Conduct.Shared.{runtime, duties-Safe}
use barista_sh.Contract.{ErrorReason}
use barista_sh.Policy.Restore.{Restore, decide_never_mixes}
use barista_sh.Node.Submit.{
  Config, latest_of, find_snapshot, wanted_snapshot, restore_decision, resolve_restore,
}
use barista_sh.Node.Executor.Steps.{bootstrap, fails}
use barista_sh.Node.Executor.Guest.{restore_duties}
use barista_sh.Node.Executor.Resume.{
  latest_id, collapsed, epoch_or_zero, from_memory, cold_boot, run_resume,
}

-- A decision to boot cold was allowed to.
abbrev Willing : Bool → Option InstanceRow × Restore → Type 0
Willing memory d = (reason : ErrorReason) → d.1 ≡ Restore.cold_boot reason → memory ≡ false

module _ (W : (R : Type 0) → (Db → Option R × Db) → Type 0) (C : Call → Type 0) where
  wanted-Safe : (id : String) (sid : Option String) → Safe W C (wanted_snapshot id sid)
  unfolding wanted_snapshot find_snapshot
  wanted-Safe id (some sid) = reading W C (λ _. Unit) _ _ (λ o. tt)
  wanted-Safe id none = reading W C (λ _. Unit) _ _ (λ o. found-Safe (latest_of (flatten o)))
    where
      found-Safe : (l : Option String) → Safe W C (find_snapshot l)
      found-Safe none = tt
      found-Safe (some sid) = reading W C (λ _. Unit) _ _ (λ o. tt)

  decision-Willing :
      (cfg : Config) (s : Option SnapshotRow) (row : Option InstanceRow) (memory : Bool)
      → Willing memory (row, restore_decision cfg s row memory)
  unfolding restore_decision
  decision-Willing cfg s row false reason e = refl
  decision-Willing cfg s none true reason e = absurd cc
  decision-Willing cfg s (some r) true reason e = absurd ((decide_never_mixes s _ _ _ reason).0 e)

  pub resolve-Willing :
      (cfg : Config) (id : String) (sid : Option String) (memory : Bool)
      → Keeps W C (Willing memory) (resolve_restore cfg id sid memory)
  unfolding resolve_restore
  resolve-Willing cfg id sid memory =
      seq W C (Willing memory) (wanted_snapshot id sid) _ (wanted-Safe id sid)
        (λ s. reading W C (Willing memory) _ _ (λ o. decision-Willing cfg s (flatten o) memory))

module _ (W : (R : Type 0) → (Db → Option R × Db) → Type 0) (C : Call → Type 0) (x : Execution)
    (may : Permits W C x) (sid : Option String) (memory : Bool)
    (e : x.payload ≡ OpPayload.resume sid memory) where
  from_memory-Safe :
      (epoch : Option ℕ) (row : Option InstanceRow) → Safe W C (from_memory x epoch sid row)
  unfolding from_memory fails_as
  from_memory-Safe epoch row = (
    may.stepped "runtime.resume",
    λ _. (
      runtime W C x may e (Call.resume (target x) (collapsed sid (latest_id row))) refl,
      λ a.
          answered W C (λ _. Unit) _ _ a
            (λ u.
              seq W C (λ _. Unit) (restore_duties x (epoch_or_zero epoch)) _
                (duties-Safe W C x may (epoch_or_zero epoch)) (λ ds. tt))
            (λ f. tt),
    ),
  )

  cold_boot-Safe : memory ≡ false → (row : Option InstanceRow) → Safe W C (cold_boot x row)
  unfolding cold_boot
  cold_boot-Safe unasked none = (may.stepped "restore.cold_boot_fallback", λ _. tt)
  cold_boot-Safe unasked (some r) = (
    may.stepped "restore.cold_boot_fallback",
    λ _.
        (runtime W C x may e (Call.start (target x) r.spec (bootstrap r)) (refl, unasked), λ a. tt),
  )

  pub resume-Safe : (epoch : Option ℕ) → Safe W C (run_resume x epoch sid memory)
  unfolding run_resume
  resume-Safe epoch = (
    may.stepped "restore.preconditions",
    λ _.
        after W C (Willing memory) (λ _. Unit) (resolve_restore x.cfg (target x) sid memory) _
          (resolve-Willing W C x.cfg (target x) sid memory)
          (λ found willing. decided (found.0) (found.1) willing),
  )
    where
      decided :
          (row : Option InstanceRow) (d : Restore)
          → ((reason : ErrorReason) → d ≡ Restore.cold_boot reason → memory ≡ false)
          → Safe W C (elim d [
            | Restore.from_memory ↦ from_memory x epoch sid row
            | Restore.cold_boot _ ↦ cold_boot x row
            | Restore.refuse reason ↦
                fails reason "require_memory was set, so this was not cold-booted"
          ])
      decided row Restore.from_memory w = from_memory-Safe epoch row
      decided row (Restore.cold_boot reason) w = cold_boot-Safe (w reason refl) row
      decided row (Restore.refuse reason) w = tt
