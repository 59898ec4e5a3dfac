-- ===== src/Node/Executor/Resume.antt =====
-- `OpPayload::Resume` in `execute` (crates/barista-node-agent/src/ops.rs).
use Prim.Native.String.{String}
use text.Mathlib.Text.{◌==◌ as str_eq}
use barista_sh.Base.{ℕ, Bool, Option, none, some, [], if◌then◌else◌}
use barista_sh.Contract.{ErrorReason}
use barista_sh.Journal.Rows.{InstanceRow}
use barista_sh.Journal.Operations.{succeeded, failed}
use barista_sh.Policy.Restore.{Restore}
use barista_sh.Node.Runtime.{ok, err, Call}
use barista_sh.Node.Process.{Proc, ◌>>=◌, ◌>>◌, pure, ask}
use barista_sh.Node.Submit.{resolve_restore}
use barista_sh.Node.Executor.Steps.{
  Execution, target, Done, step, degrade, fails, to_work, bootstrap, fails_as,
}
use barista_sh.Node.Executor.Guest.{restore_duties}

unfoldable pub latest_id : Option InstanceRow → String
latest_id none = ""
latest_id (some r) = r.latest_snapshot_id

-- asking for the latest snapshot by its id is asking for the latest
abbrev pub collapsed : Option String → String → Option String
collapsed none latest = none
collapsed (some sid) latest = if str_eq sid latest then none else some sid

unfoldable pub epoch_or_zero : Option ℕ → ℕ
epoch_or_zero none = 0
epoch_or_zero (some n) = n

unfoldable pub from_memory : Execution → Option ℕ → Option String → Option InstanceRow → Proc Done
unfolding latest_id epoch_or_zero fails_as restore_duties
from_memory x epoch sid row = do
  step x "runtime.resume"
  a ← ask (Call.resume (target x) (collapsed sid (latest_id row)))
  elim a [
    | ok _ ↦ do ds ← restore_duties x (epoch_or_zero epoch); pure (succeeded, ds)
    | err e ↦ fails_as e []
  ]

unfoldable pub cold_boot : Execution → Option InstanceRow → Proc Done
cold_boot x row = do
  step x "restore.cold_boot_fallback"
  ds ← degrade x "resuming as a cold boot rather than from memory"
  elim row [
    | none ↦ pure (failed ErrorReason.unspecified "the instance vanished before its cold boot", ds)
    | some r ↦ do a ← ask (Call.start (target x) r.spec (bootstrap r)); pure (to_work a, ds)
  ]

-- `OpPayload::Resume`
unfoldable pub run_resume : Execution → Option ℕ → Option String → Bool → Proc Done
unfolding from_memory cold_boot resolve_restore
run_resume x epoch sid memory = do
  step x "restore.preconditions"
  found ← resolve_restore x.cfg (target x) sid memory
  elim (found.1) [
    | Restore.from_memory ↦ from_memory x epoch sid (found.0)
    | Restore.cold_boot _ ↦ cold_boot x (found.0)
    | Restore.refuse reason ↦ fails reason "require_memory was set, so this was not cold-booted"
  ]
