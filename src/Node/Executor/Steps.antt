-- ===== src/Node/Executor/Steps.antt =====
-- What the verbs of `execute` (crates/barista-node-agent/src/ops.rs) share: the journaled steps,
-- the degradations, and the rows that they read back.
use Prim.Native.String.{String, ◌++◌}
use barista_sh.Base.{Option, none, some, List, [], ◌∷◌, if◌then◌else◌}
use text.Mathlib.Text.{◌==◌ as str_eq}
use barista_sh.Base.Int.{ℤ}
use barista_sh.Contract.{InstanceState, ErrorReason}
use barista_sh.Journal.Rows.{OperationRow, Identity, InstanceRow, Journal}
use barista_sh.Journal.Operations.{Work, succeeded, failed, set_op_step}
use barista_sh.Journal.Snapshots.{Db, get_instance}
use barista_sh.Policy.Plan.{OpKind}
use barista_sh.Node.Runtime.{GuestBootstrap, RuntimeError, Answer, ok, err, map_runtime_err}
use barista_sh.Node.Payload.{OpPayload}
use barista_sh.Node.Submit.{Config}
use barista_sh.Node.Process.{Notice, Proc, ◌>>=◌, ◌>>◌, pure, tell, query, update_db}

-- An operation as its executor gets it, with the readings of the clock that it will make.
pub record Execution : Type 0 where
  pub cfg : Config
  pub kind : OpKind
  pub op : OperationRow
  pub payload : OpPayload
  pub recorded : InstanceState
  pub bind_now : ℤ
  pub snapshot_now : ℤ
  pub deadline_now : ℤ
  pub finish_now : ℤ

abbrev pub target : Execution → String
target x = x.op.instance_id

-- What a verb ended with, and the degradations that it recorded.
abbrev pub Done : Type 0
Done = Work × List String

abbrev pub on_journal : (Journal → Journal) → Db → Db
on_journal f d = record d { journal = f d.journal }

-- `step`: a failed write of the step is only logged
abbrev pub step : Execution → String → Proc (Unit {0})
step x name = do
  update_db (on_journal (set_op_step x.op.op_id name))
  tell (Notice.op_progress (target x) x.op.op_id name)

-- `Degradations::record`
abbrev pub degrade : Execution → String → Proc (List String)
degrade x message = do tell (Notice.degradation (target x) x.op.op_id message); pure (message ∷ [])

-- `Degradations::joined`
unfoldable pub joined_after : String → List String → String
joined_after first [] = first
joined_after first (m ∷ ms) = joined_after (first ++ "; " ++ m) ms

unfoldable pub joined : List String → String
unfolding joined_after
joined [] = ""
joined (m ∷ ms) = joined_after m ms

abbrev pub fails : ErrorReason → String → Proc Done
fails reason message = pure (failed reason message, [])

abbrev pub to_work : Answer (Unit {0}) → Work
to_work (ok _) = succeeded
to_work (err e) = let (reason, message) = map_runtime_err e in failed reason message

-- the answer of a call as the verb's result
abbrev pub ends : Answer (Unit {0}) → Proc Done
ends a = pure (to_work a, [])

-- the identity that `instance_row_from` reads: none where the anchor is empty
abbrev pub stored_identity : Identity → Option Identity
stored_identity i = if str_eq i.anchor "" then none else some i

abbrev pub bootstrap : InstanceRow → GuestBootstrap
bootstrap r = record { token = r.guest_token; identity = stored_identity r.identity }

-- the row of the instance, read back from the journal, or the verb's failure
abbrev pub with_row : Execution → (InstanceRow → Proc Done) → Proc Done
with_row x f = do
  row ← query (get_instance (target x))
  elim row [
    | none ↦ fails ErrorReason.unspecified "could not read the instance's row"
    | some none ↦ fails ErrorReason.unspecified "the instance vanished from the journal"
    | some (some r) ↦ f r
  ]

-- the error of a call as the verb's result
unfoldable pub fails_as : RuntimeError → List String → Proc Done
fails_as e ds = let (reason, message) = map_runtime_err e in pure (failed reason message, ds)
