-- ===== src/Journal/Rows.antt =====
-- The rows of the tables `instances` and `operations`, the journal they make up, and the types
-- that the journal's interface names (crates/barista-node-agent/src/db.rs). A cell holds the value
-- that the code writes there; the integer an enum is cast to is not kept apart from the enum.
use Prim.Native.String.{String}
use text.Mathlib.Text.{◌==◌ as str_eq}
use barista_sh.Base.{ℕ, Bool, List, Option}
use barista_sh.Base.Int.{ℤ}
use barista_sh.Contract.{InstanceState, OperationState, ErrorReason}
use barista_sh.Contract.Spec.{InstanceSpec}

pub data ForkMode : Type 0 where
  unspecified cow full_copy : ForkMode

-- `OperationRow`
pub record OperationRow : Type 0 where
  pub op_id : String
  pub kind : String
  pub instance_id : String
  pub payload : String
  pub state : OperationState
  pub current_step : String
  pub error_reason : ErrorReason
  pub error_message : String
  pub degraded : String
  pub created_at_ms : ℤ
  pub finished_at_ms : Option ℤ
  pub froze_workload : Bool
  pub actual_fork_mode : ForkMode

-- A row of `operations`: what `OperationRow` carries and the two columns that it leaves out.
pub record StoredOperation : Type 0 where
  pub op : OperationRow
  pub idempotency_key : String
  pub executor_active : Bool

pub record StopReason : Type 0 where
  pub requested : Bool
  pub exit_code : Option ℤ
  pub detail : String

-- `crate::identity::Identity`
pub record Identity : Type 0 where
  pub anchor : String
  pub guest_cert : String
  pub guest_key : String
  pub host_cert : String
  pub host_key : String

pub record Lineage : Type 0 where
  pub lineage_id : String
  pub source_snapshot_id : String
  pub source_capsule_id : String
  pub parent_instance_id : String

abbrev pub no_identity : Identity
no_identity = record { anchor = ""; guest_cert = ""; guest_key = ""; host_cert = ""; host_key = "" }

abbrev pub no_lineage : Lineage
no_lineage = record {
  lineage_id = "";
  source_snapshot_id = "";
  source_capsule_id = "";
  parent_instance_id = "";
}

-- A row of `instances`.
pub record InstanceRow : Type 0 where
  pub instance_id : String
  pub spec : InstanceSpec
  pub state : InstanceState
  pub ready : Bool
  pub runtime : String
  pub created_at_ms : ℤ
  pub updated_at_ms : ℤ
  pub ttl_deadline_ms : Option ℤ
  pub latest_snapshot_id : String
  pub guest_token : String
  pub identity : Identity
  pub wake_at_ms : Option ℤ
  pub stop_requested : Option Bool
  pub stop_exit_code : Option ℤ
  pub stop_detail : Option String
  pub run_epoch_ms : Option ℤ
  pub lineage : Lineage
  pub execution_epoch : ℕ  -- u64

-- The tables, and `next_execution_epoch` of `journal_meta`.
pub record Journal : Type 0 where
  pub instances : List InstanceRow
  pub operations : List StoredOperation
  pub next_execution_epoch : ℕ

-- `Claim`
pub data Claim : Type 0 where
  ttl_expiry : ℤ → Claim
  wake : ℤ → Claim

-- `Submission`; the text of a rejection is left out.
pub data Submission : Type 0 where
  journaled : InstanceState → Submission
  replay : OperationRow → Submission
  conflict rejected claim_superseded : Submission

-- `Finalized`
pub record Finalized : Type 0 where
  pub readiness_changed : Bool
  pub outcome_recorded : Bool

-- The key tests of the two tables.
abbrev pub of_instance : String → InstanceRow → Bool
of_instance id r = str_eq r.instance_id id

abbrev pub of_op : String → StoredOperation → Bool
of_op id r = str_eq r.op.op_id id

abbrev pub of_key : String → StoredOperation → Bool
of_key key r = str_eq r.idempotency_key key
