-- ===== src/Node/Payload.antt =====
-- `OpPayload` and `payload_descriptor` of crates/barista-node-agent/src/ops.rs.
use Prim.Native.String.{String, ◌++◌, slice}
use barista_sh.Base.{
  ℕ, zero, suc, ◌+◌, ◌/◌, ◌%◌, Bool, true, false, ltb, Option, none, some, if◌then◌else◌,
}
use barista_sh.Contract.Spec.{InstanceSpec}
use barista_sh.Journal.Rows.{Identity, Lineage}

-- What a fork takes over from its source, and what it demands.
pub record ForkRequest : Type 0 where
  pub spec : InstanceSpec
  pub source_instance_id : String
  pub source_snapshot_id : String
  pub lineage : Lineage
  pub require_cow : Bool
  pub source_guest_token : String
  pub source_identity : Option Identity

pub record CapsuleRequest : Type 0 where
  pub spec : InstanceSpec
  pub capsule_id : String
  pub source_snapshot_id : String
  pub lineage : Lineage

pub data OpPayload : Type 0 where
  create : InstanceSpec → OpPayload
  start : OpPayload
  stop : ℕ → OpPayload
  pause : Bool → OpPayload
  resume : Option String → Bool → OpPayload
  create_snapshot : Option String → OpPayload
  delete_snapshot : String → OpPayload
  destroy : Bool → OpPayload
  fork : ForkRequest → OpPayload
  restore_capsule : CapsuleRequest → OpPayload

-- how `format!` writes a `bool`, and a `u32`, which has ten digits at most
abbrev bool_text : Bool → String
bool_text true = "true"
bool_text false = "false"

unfoldable pub digits : ℕ → ℕ → String
digits zero n = ""
digits (suc left) n =
    let front = digits left (n / 10) ++ slice "0123456789" (n % 10) (n % 10 + 1) in
    if ltb n 10 then slice "0123456789" n (n + 1) else front

abbrev text_or_empty : Option String → String
text_or_empty none = ""
text_or_empty (some s) = s

-- `payload_descriptor`
unfoldable pub payload_descriptor : OpPayload → String
unfolding digits
payload_descriptor (OpPayload.create _) = ""
payload_descriptor OpPayload.start = ""
payload_descriptor (OpPayload.stop grace) = "grace_seconds=" ++ digits 10 grace
payload_descriptor (OpPayload.pause memory) = "require_memory=" ++ bool_text memory
payload_descriptor (OpPayload.resume id memory) =
    "snapshot_id=" ++ text_or_empty id ++ " require_memory=" ++ bool_text memory
payload_descriptor (OpPayload.create_snapshot name) = "name=" ++ text_or_empty name
payload_descriptor (OpPayload.delete_snapshot id) = "snapshot_id=" ++ id
payload_descriptor (OpPayload.destroy keep) = "keep_snapshots=" ++ bool_text keep
payload_descriptor (OpPayload.fork f) =
    "source_snapshot_id=" ++ f.source_snapshot_id ++ " require_cow=" ++ bool_text f.require_cow
payload_descriptor (OpPayload.restore_capsule r) =
    "source_snapshot_id=" ++ r.source_snapshot_id ++ " capsule_id=" ++ r.capsule_id
