-- ===== src/Node/Executor.antt =====
-- `execute` of crates/barista-node-agent/src/ops.rs: the run of a journaled operation. The texts of
-- errors and degradations are cut short.
pub mod Steps
pub mod Capture
pub mod Resume
pub mod Branch
pub mod Verbs
pub mod Conduct
pub mod Calls
pub mod Calling
pub mod Ready
pub mod Settles
pub mod Outcome
pub mod Concludes
pub mod Waits
pub mod Guest
pub mod Finalize
use Prim.Native.String.{String}
use barista_sh.Base.{ℕ, Bool, true, false, ◌||◌, Option, none, some, List, [], ◌++◌, if◌then◌else◌}
use barista_sh.Base.Int.{ℤ}
use barista_sh.Contract.{InstanceState, ErrorReason}
use barista_sh.Journal.Rows.{Journal}
use barista_sh.Journal.Operations.{Work, failed}
use barista_sh.Journal.Instances.{issue_execution_epoch, set_instance_epoch}
use barista_sh.Journal.Snapshots.{Db}
use barista_sh.Policy.Plan.{OpKind}
use barista_sh.Node.Process.{Notice, Proc, ◌>>=◌, ◌>>◌, pure, tell, transact}
use barista_sh.Node.Executor.Steps.{Execution, target, on_journal}
use barista_sh.Node.Executor.Verbs.{run_verb}
use barista_sh.Node.Executor.Finalize.{finalize, fail_closed}

abbrev pub is_boot : OpKind → Bool
is_boot OpKind.start = true
is_boot OpKind.resume = true
is_boot OpKind.fork = true
is_boot _ = false

-- The execution epoch of a run: none is wanted, one was issued and bound, or that failed.
pub data Epoch : Type 0 where
  not_wanted : Epoch
  bound : ℕ → Epoch
  unbound : Epoch

abbrev pub issue_db : Db → Option ℕ × Db
issue_db d =
    let (epoch, j) = issue_execution_epoch d.journal in (some epoch, record d { journal = j })

-- `Db::set_instance_epoch`, which refuses an instance that is not there
abbrev pub bind_db : String → ℕ → ℤ → Db → Option (Unit {0}) × Db
bind_db id epoch now d =
    let (there, j) = set_instance_epoch id epoch now d.journal in
    (if there then some tt else none, record d { journal = j })

unfoldable pub bind_epoch : Execution → Proc Epoch
bind_epoch x = do
  issued ← transact issue_db
  elim issued [
    | none ↦ pure Epoch.unbound
    | some epoch ↦ do
      there ← transact (bind_db (target x) epoch x.bind_now)
      pure (elim there [ none ↦ Epoch.unbound | some _ ↦ Epoch.bound epoch ])
  ]

unfoldable pub want_epoch : Execution → Proc Epoch
unfolding bind_epoch
want_epoch x = if is_boot x.kind then bind_epoch x else pure Epoch.not_wanted

-- `execute`
unfoldable pub execute : Execution → Proc (Unit {0})
unfolding want_epoch
execute x = do
  epoch ← want_epoch x
  tell (Notice.stamp_lease_state (target x))
  elim epoch [
    | Epoch.unbound ↦ fail_closed x
    | Epoch.not_wanted ↦ do result ← run_verb x none; finalize x none result
    | Epoch.bound n ↦ do result ← run_verb x (some n); finalize x (some n) result
  ]
