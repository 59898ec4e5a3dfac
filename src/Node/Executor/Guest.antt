-- ===== src/Node/Executor/Guest.antt =====
-- `run_pre_snapshot_hook` and `restore_duties` of crates/barista-node-agent/src/ops.rs: what an
-- executor asks of the guest. Neither fails the operation.
use Prim.Native.String.{String}
use text.Mathlib.Text.{◌==◌ as str_eq}
use barista_sh.Base.{ℕ, Bool, true, false, Option, none, some, List, [], ◌∷◌, ◌++◌, if◌then◌else◌}
use barista_sh.Base.Int.{pos}
use barista_sh.Contract.Spec.{Hooks, HookOutcome}
use barista_sh.Journal.Rows.{InstanceRow}
use barista_sh.Journal.Snapshots.{get_instance}
use barista_sh.Node.Runtime.{HookKind, Call, DutyReport}
use barista_sh.Node.Process.{Notice, Proc, ◌>>=◌, ◌>>◌, pure, tell, ask, query}
use barista_sh.Node.Submit.{flatten}
use barista_sh.Node.Executor.Steps.{Execution, target, step, degrade}

abbrev pub is_empty : List String → Bool
is_empty [] = true
is_empty (_ ∷ _) = false

abbrev pub no_hook : HookOutcome
no_hook = record { ran = false; timed_out = false; exit_code = pos 0 }

abbrev pub wants_pre_snapshot : Option Hooks → Bool
wants_pre_snapshot none = false
wants_pre_snapshot (some h) = if is_empty h.pre_snapshot_cmd then false else true

abbrev pub wants_post_restore : Option Hooks → Bool
wants_post_restore none = false
wants_post_restore (some h) = if is_empty h.post_restore_cmd then false else true

-- the outcome of a hook, and what it degraded
abbrev pub HookDone : Type 0
HookDone = Option HookOutcome × List String

unfoldable pub hook_answer : Execution → Option HookOutcome → Proc HookDone
hook_answer x none = do
  ds ← degrade x "the pre-snapshot hook failed; the snapshot proceeded anyway"
  pure (none, ds)
hook_answer x (some h) =
    if h.timed_out
    then (do
      ds ← degrade x "the pre-snapshot hook timed out; the snapshot proceeded"
      pure (some h, ds))
    else pure (some h, [])

unfoldable pub asked_hook : Execution → Proc HookDone
unfolding hook_answer
asked_hook x = do
  reached ← ask (Call.connect (target x))
  if reached
      then (do answer ← ask (Call.run_hook (target x) HookKind.pre_snapshot); hook_answer x answer)
      else (do ds ← degrade x "pre-snapshot hook could not run"; pure (none, ds))

-- `run_pre_snapshot_hook`
unfoldable pub run_pre_snapshot_hook : Execution → Proc HookDone
unfolding asked_hook
run_pre_snapshot_hook x = do
  row ← query (get_instance (target x))
  elim (flatten row) [
    | none ↦ pure (none, [])
    | some r ↦ if wants_pre_snapshot r.spec.hooks then asked_hook x else pure (some no_hook, [])
  ]

unfoldable pub post_hook_answer : Execution → Bool → Option HookOutcome → Proc (List String)
post_hook_answer x rebound none =
    degrade x
      (if rebound then "the post-restore rebind hook failed" else "the post-restore hook failed")
post_hook_answer x rebound (some h) =
    if h.timed_out
    then degrade x (
        if rebound
        then "the post-restore rebind hook timed out"
        else "the post-restore hook hook timed out")
    else pure []

unfoldable pub post_restore : Execution → InstanceRow → Bool → Proc (List String)
unfolding post_hook_answer
post_restore x r rebound =
    if wants_post_restore r.spec.hooks
    then (do
      step x "hook.post_restore"
      answer ← ask (Call.run_hook (target x) HookKind.post_restore)
      post_hook_answer x rebound answer)
    else pure []

unfoldable pub reported : Execution → InstanceRow → Option DutyReport → Proc (List String)
unfolding post_restore
reported x r none = degrade x "restore duties failed; the guest was not reseeded"
reported x r (some report) = do
  own ← (if str_eq report.degraded "" then pure [] else degrade x report.degraded)
  answers ← ask (Call.health (target x))
  net ← (if answers then pure [] else degrade x "the guest stopped answering after its duties")
  tell (Notice.restored (target x) x.op.op_id)
  hook ← post_restore x r report.grant_rebound
  pure (own ++ (net ++ hook))

unfoldable pub seeded : Execution → InstanceRow → ℕ → Proc (List String)
unfolding reported
seeded x r epoch = do
  drawn ← ask Call.entropy
  if drawn
      then (do answer ← ask (Call.run_restore_duties (target x) epoch); reported x r answer)
      else degrade x "could not read host entropy; the guest was not reseeded"

-- `restore_duties`
unfoldable pub restore_duties : Execution → ℕ → Proc (List String)
unfolding seeded
restore_duties x epoch = do
  row ← query (get_instance (target x))
  elim (flatten row) [
    | none ↦ pure []
    | some r ↦ do
      step x "restore.duties"
      reached ← ask (Call.connect (target x))
      if reached then seeded x r epoch else degrade x "restore duties could not run"
  ]
