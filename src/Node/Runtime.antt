-- ===== src/Node/Runtime.antt =====
-- The calls that the node agent makes of a runtime (the trait of
-- crates/barista-node-agent/src/runtime/mod.rs), of the object store and of the guest's channel,
-- each with the type of its reply. Any backend is a choice of replies.
use Prim.Native.String.{String}
use barista_sh.Base.{ℕ, Bool, Option, List}
use barista_sh.Base.Int.{ℤ}
use barista_sh.Contract.{ErrorReason}
use barista_sh.Contract.Spec.{InstanceSpec, SnapshotKind, HookOutcome}
use barista_sh.Journal.Rows.{ForkMode, Identity}

-- `SnapshotRef`
pub record SnapshotRef : Type 0 where
  pub snapshot_id : String
  pub kind : SnapshotKind
  pub size_bytes : ℕ

-- `ForkOutcome`, whose handle is the target's
pub record ForkOutcome : Type 0 where
  pub mode : ForkMode
  pub froze_source : Bool

-- `StopStatus`
pub record StopStatus : Type 0 where
  pub exit_code : Option ℤ
  pub detail : String

-- `GuestBootstrap`
pub record GuestBootstrap : Type 0 where
  pub token : String
  pub identity : Option Identity

-- `RuntimeError`
pub data RuntimeError : Type 0 where
  template_not_found substrate_unavailable capability_missing name_conflict other :
      String → RuntimeError

pub data Answer {ℓ} (A : Type ℓ) : Type ℓ where
  ok : A → Answer A
  err : RuntimeError → Answer A

-- `map_runtime_err` of crates/barista-node-agent/src/ops.rs
unfoldable pub map_runtime_err : RuntimeError → ErrorReason × String
map_runtime_err (RuntimeError.template_not_found m) = (ErrorReason.template_not_found, m)
map_runtime_err (RuntimeError.substrate_unavailable m) = (ErrorReason.substrate_unavailable, m)
map_runtime_err (RuntimeError.name_conflict m) = (ErrorReason.snapshot_name_conflict, m)
map_runtime_err (RuntimeError.capability_missing m) = (ErrorReason.capability_missing, m)
map_runtime_err (RuntimeError.other m) = (ErrorReason.unspecified, m)

-- What the guest reports of its restore duties.
pub record DutyReport : Type 0 where
  pub grant_rebound : Bool
  pub degraded : String

-- The bytes of a capsule's object; only their length is compared.
pub record ObjectBytes : Type 0 where
  pub digest : String
  pub length : ℕ

-- `Sandbox`
pub record Sandbox : Type 0 where
  pub substrate_id : String
  pub instance_id : String
  pub running : Bool

-- `Credential`
pub record Credential : Type 0 where
  pub id : String
  pub instance : Option String

-- What the guest reports of its health.
pub record Health : Type 0 where
  pub ready : Bool
  pub idle_declared_ms : Option ℤ
  pub last_user_activity_ms : Option ℤ

pub data HookKind : Type 0 where
  pre_snapshot post_restore : HookKind

-- A call; `connect`, `run_hook`, `run_restore_duties`, `health`
-- and `probe` (a health check that runs the ready command) go to the guest, `fetch` to the
-- object store, and `entropy` to the host.
pub data Call : Type 0 where
  create : InstanceSpec → GuestBootstrap → Call
  start : String → InstanceSpec → GuestBootstrap → Call
  stop : String → ℕ → Call
  stop_status : String → Call
  pause : String → Call
  resume : String → Option String → Call
  create_snapshot : String → Option String → Call
  delete_snapshot : String → Call
  destroy : String → Call
  fork : String → String → InstanceSpec → GuestBootstrap → Bool → Call
  restore_from_objects : List ObjectBytes → InstanceSpec → GuestBootstrap → Call
  remove_orphan : String → Call
  list_labeled : Call
  list_sandboxes : Call
  remove_sandbox : String → Call
  list_credentials : Call
  remove_credential : String → Call
  probe : String → Call
  connect : String → Call
  run_hook : String → HookKind → Call
  run_restore_duties : String → ℕ → Call
  health : String → Call
  entropy : Call
  fetch : String → Call

abbrev pub Reply : Call → Type 0
Reply (Call.create _ _) = Answer (Unit {0})
Reply (Call.start _ _ _) = Answer (Unit {0})
Reply (Call.stop _ _) = Answer (Unit {0})
Reply (Call.stop_status _) = Answer (Option StopStatus)
Reply (Call.pause _) = Answer SnapshotRef
Reply (Call.resume _ _) = Answer (Unit {0})
Reply (Call.create_snapshot _ _) = Answer SnapshotRef
Reply (Call.delete_snapshot _) = Answer (Unit {0})
Reply (Call.destroy _) = Answer (Unit {0})
Reply (Call.fork _ _ _ _ _) = Answer ForkOutcome
Reply (Call.restore_from_objects _ _ _) = Answer (Unit {0})
Reply (Call.remove_orphan _) = Answer (Unit {0})
Reply Call.list_labeled = Answer (List String)
Reply Call.list_sandboxes = Answer (List Sandbox)
Reply (Call.remove_sandbox _) = Answer (Unit {0})
Reply Call.list_credentials = Answer (List Credential)
Reply (Call.remove_credential _) = Answer (Unit {0})
Reply (Call.probe _) = Option Health
Reply (Call.connect _) = Bool
Reply (Call.run_hook _ _) = Option HookOutcome
Reply (Call.run_restore_duties _ _) = Option DutyReport
Reply (Call.health _) = Bool
Reply Call.entropy = Bool
Reply (Call.fetch _) = Answer (Option ObjectBytes)
