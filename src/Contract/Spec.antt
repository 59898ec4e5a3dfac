-- ===== src/Contract/Spec.antt =====
-- The messages of the wire contract that the node stores and reads: specs, the capabilities of a
-- runtime, and what describes a snapshot
-- (crates/barista-proto/src/generated/barista.node.v1alpha1.rs). A map is the list of its pairs.
use Prim.Native.String.{String}
use barista_sh.Base.{ℕ, Bool, Option, List}
use barista_sh.Base.Int.{ℤ}

pub record OciImageRef : Type 0 where
  pub image : String
  pub digest : String

pub record TemplateRef : Type 0 where
  pub oci : Option OciImageRef
  pub runtime_bundle_ref : String
  pub template_hash : String
  pub arch : String

pub record Resources : Type 0 where
  pub vcpu : ℕ
  pub mem_mib : ℕ
  pub disk_mib : ℕ

pub record Process : Type 0 where
  pub start_cmd : List String
  pub ready_cmd : List String
  pub env : List (String × String)
  pub workdir : String

pub record Hooks : Type 0 where
  pub pre_snapshot_cmd : List String
  pub post_restore_cmd : List String
  pub pre_snapshot_timeout_ms : ℕ
  pub post_restore_timeout_ms : ℕ

pub record EgressPolicy : Type 0 where
  pub mediated : Bool
  pub mode : ℤ

pub record InstanceSpec : Type 0 where
  pub instance_id : String
  pub template : Option TemplateRef
  pub resources : Option Resources
  pub process : Option Process
  pub hooks : Option Hooks
  pub ttl_seconds : ℕ
  pub ttl_action : ℤ
  pub labels : List (String × String)
  pub egress : Option EgressPolicy
  pub idle_action : Option ℤ

pub record RuntimeCapabilities : Type 0 where
  pub memory_snapshot : Bool
  pub disk_snapshot : Bool
  pub live_checkpoint : Bool
  pub guest_agent : Bool
  pub hardware_isolation : Bool
  pub lazy_restore : Bool
  pub cow_fork : Bool
  pub egress_control : Bool
  pub full_copy_fork : Bool
  pub object_store_snapshots : Bool
  pub capsule_export : Bool
  pub capsule_import : Bool
  pub safe_grant_rebind : Bool

pub data SnapshotKind : Type 0 where
  unspecified memory_and_disk disk_only : SnapshotKind

pub data SnapshotTier : Type 0 where
  unspecified local object_store : SnapshotTier

pub record HookOutcome : Type 0 where
  pub ran : Bool
  pub timed_out : Bool
  pub exit_code : ℤ
