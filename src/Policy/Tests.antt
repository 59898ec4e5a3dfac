-- ===== src/Policy/Tests.antt =====
-- Concrete decisions of crates/barista-node-agent/src (ops.rs, restore.rs, grants.rs).
use text.Mathlib.Text.{◌==◌ as str_eq}
use barista_sh.Base.{[], ◌+◌, ◌*◌, ◌≤◌, true, false, none, some, ◌≡◌, ◌↔◌, ◌⊎◌, refl, arith}
use barista_sh.Base.Int.{pos, ◌≤ℤ◌, IsI64, i64_half}
use barista_sh.Contract.{InstanceState, ErrorReason}
use barista_sh.Machine.Instance.{can_transition}
use barista_sh.Journal.Steps.{empty_journal}
use barista_sh.Journal.Settled.{now}
use barista_sh.Journal.Instances.{issue_execution_epoch}
use barista_sh.Policy.Plan.{OpKind, plan_of, plan_transition, states, Sensible, plan_of-Sensible}
use barista_sh.Contract.Spec.{SnapshotKind, SnapshotTier}
use barista_sh.Journal.Snapshots.{SnapshotRow}
use barista_sh.Policy.Restore.{
  CapsuleManifest, from_memory, proceed, decide, decide_capsule, Compatible, decide_iff,
  decide_capsule_iff,
}
use barista_sh.Contract.Spec.{InstanceSpec, RuntimeCapabilities}
use barista_sh.Policy.Admission.{trims_to_empty, admit, WellFormed, Honoured, admit_verdict}
use barista_sh.Policy.Gate.{
  validate_grant_epoch, old_grant_revoked, ttl_deadline_ms, ttl_deadline_sound,
}

pause_planned : plan_of OpKind.pause InstanceState.running ≡ some InstanceState.pausing
unfolding plan_transition states can_transition
pause_planned = refl

plan_of-Sensible_example : Sensible OpKind.pause InstanceState.running InstanceState.pausing
plan_of-Sensible_example =
    plan_of-Sensible OpKind.pause InstanceState.running InstanceState.pausing pause_planned

abbrev snapshot : SnapshotRow
snapshot = record {
  snapshot_id = "s-1";
  instance_id = "i-1";
  kind = SnapshotKind.memory_and_disk;
  cpu_class = "c1";
  template_hash = "t1";
  runtime_bundle_ref = "b1";
  tier = SnapshotTier.object_store;
  size_bytes = 1;
  created_at_ms = pos 1;
  pre_snapshot_hook = none;
  name = "";
}

decide_iff_example :
    (decide (some snapshot) "t1" "c1" "b1" true ≡ from_memory)
    ↔ ((s : SnapshotRow) × (some snapshot ≡ some s) × Compatible s "t1" "c1" "b1")
decide_iff_example = decide_iff (some snapshot) "t1" "c1" "b1" true

abbrev manifest : CapsuleManifest
manifest = record {
  kind = SnapshotKind.memory_and_disk;
  architecture = "x86_64";
  cpu_class = "c1";
  template_hash = "t1";
  runtime_bundle_ref = "b1";
}

decide_capsule_iff_example : (decide_capsule manifest "x86_64" "t1" "c1" "b1" ≡ proceed) ↔ (
    (manifest.kind ≡ SnapshotKind.memory_and_disk)
    × (manifest.architecture ≡ "x86_64")
    × (manifest.cpu_class ≡ "c1")
    × (manifest.template_hash ≡ "t1")
    × (manifest.runtime_bundle_ref ≡ "b1"))
decide_capsule_iff_example = decide_capsule_iff manifest "x86_64" "t1" "c1" "b1"

old_grant_revoked_example :
    (validate_grant_epoch
        (issue_execution_epoch empty_journal).0
        (issue_execution_epoch empty_journal).0
      ≡ none)
    × (validate_grant_epoch
          (issue_execution_epoch (issue_execution_epoch empty_journal).1).0
          (issue_execution_epoch empty_journal).0
        ≡ some ErrorReason.epoch_revoked)
old_grant_revoked_example =
    old_grant_revoked empty_journal (issue_execution_epoch empty_journal).1 now

ttl_deadline_sound_example :
    IsI64 (ttl_deadline_ms 60 (pos 5))
    × (pos 5 ≤ℤ ttl_deadline_ms 60 (pos 5))
    × ((ttl_deadline_ms 60 (pos 5) ≡ pos (60 * 1000 + 5)) ⊎ (i64_half ≤ 60 * 1000 + 5))
ttl_deadline_sound_example = ttl_deadline_sound 60 5 (omega arith)

-- A spec that pins its template and asks for mediated egress, and a runtime without egress control.
abbrev mediated_spec : InstanceSpec
mediated_spec = record {
  instance_id = "01ARZ3NDEKTSV4RRFFQ69G5FAV";
  template = some (record {
    oci = some (record { image = "app:v1"; digest = "sha256:abc" });
    runtime_bundle_ref = "b1";
    template_hash = "t1";
    arch = "x86_64";
  });
  resources = none;
  process = none;
  hooks = none;
  ttl_seconds = 60;
  ttl_action = pos 0;
  labels = [];
  egress = some (record { mediated = true; mode = pos 1 });
  idle_action = none;
}

abbrev open_runtime : RuntimeCapabilities
open_runtime = record {
  memory_snapshot = true;
  disk_snapshot = true;
  live_checkpoint = false;
  guest_agent = true;
  hardware_isolation = true;
  lazy_restore = false;
  cow_fork = false;
  egress_control = false;
  full_copy_fork = true;
  object_store_snapshots = false;
  capsule_export = true;
  capsule_import = true;
  safe_grant_rebind = true;
}

mediation_refused :
    admit (str_eq "01ARZ3NDEKTSV4RRFFQ69G5FAV") mediated_spec false open_runtime
    ≡ some ErrorReason.capability_missing
unfolding admit trims_to_empty
mediation_refused = refl

admit_verdict_example :
    ((admit (str_eq "01ARZ3NDEKTSV4RRFFQ69G5FAV") mediated_spec true open_runtime ≡ none) ↔ (
      WellFormed (str_eq "01ARZ3NDEKTSV4RRFFQ69G5FAV") mediated_spec
      × Honoured mediated_spec true open_runtime))
    × ((admit (str_eq "01ARZ3NDEKTSV4RRFFQ69G5FAV") mediated_spec true open_runtime
          ≡ some ErrorReason.invalid_spec)
        ↔ ¬ WellFormed (str_eq "01ARZ3NDEKTSV4RRFFQ69G5FAV") mediated_spec)
    × ((admit (str_eq "01ARZ3NDEKTSV4RRFFQ69G5FAV") mediated_spec true open_runtime
          ≡ some ErrorReason.capability_missing)
        ↔ (WellFormed (str_eq "01ARZ3NDEKTSV4RRFFQ69G5FAV") mediated_spec
            × ¬ Honoured mediated_spec true open_runtime))
admit_verdict_example =
    admit_verdict (str_eq "01ARZ3NDEKTSV4RRFFQ69G5FAV") mediated_spec true open_runtime
