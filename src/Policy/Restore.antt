-- ===== src/Policy/Restore.antt =====
-- `decide` and `decide_capsule` of crates/barista-node-agent/src/restore.rs. The template hash of a
-- spec (snapshot_key.rs, over the `sha2` crate) is an argument, as is the spec's architecture; the
-- texts are left out.
use Prim.Native.String.{String}
use mathlib.Core.Path.{subst}
use text.Mathlib.Text.{◌==◌ as str_eq}
use text.Mathlib.TextEquality.{eq_iff}
use barista_sh.Base.{
  Bool, true, false, not, ◌&&◌, if◌then◌else◌, Option, none, some, ◌≡◌, ◌≢◌, ◌↔◌, refl, arith,
}
use barista_sh.Contract.{ErrorReason}
use barista_sh.Contract.Spec.{SnapshotKind, SnapshotTier}
use barista_sh.Journal.Snapshots.{SnapshotRow}

-- What the decision reads of a `CapsuleManifest`.
pub record CapsuleManifest : Type 0 where
  pub kind : SnapshotKind
  pub architecture : String
  pub cpu_class : String
  pub template_hash : String
  pub runtime_bundle_ref : String

pub data Restore : Type 0 where
  from_memory : Restore
  cold_boot refuse : ErrorReason → Restore

pub data CapsuleRestore : Type 0 where
  proceed : CapsuleRestore
  refuse : ErrorReason → CapsuleRestore

is_memory : SnapshotKind → Bool
is_memory SnapshotKind.memory_and_disk = true
is_memory _ = false

is_object_store : SnapshotTier → Bool
is_object_store SnapshotTier.object_store = true
is_object_store _ = false

fallback : Bool → ErrorReason → Restore
fallback require_memory reason = if require_memory then refuse reason else cold_boot reason

-- `decide`, given the hash of the instance's current template
unfoldable pub decide : Option SnapshotRow → String → String → String → Bool → Restore
unfolding is_memory is_object_store fallback
decide none current_template node_cpu_class bundle require_memory =
    fallback require_memory ErrorReason.snapshot_invalidated
decide (some s) current_template node_cpu_class bundle require_memory =
    if not (is_memory s.kind)
    then fallback require_memory ErrorReason.snapshot_invalidated
    else if not (str_eq s.template_hash current_template)
    then fallback require_memory ErrorReason.bundle_mismatch
    else if not (str_eq s.runtime_bundle_ref bundle)
    then fallback require_memory ErrorReason.bundle_mismatch
    else if is_object_store s.tier && not (str_eq s.cpu_class node_cpu_class)
    then fallback require_memory ErrorReason.cpu_class_mismatch
    else from_memory

-- `decide_capsule`, given the architecture and the template hash of the target spec
unfoldable pub decide_capsule : CapsuleManifest → String → String → String → String → CapsuleRestore
unfolding is_memory
decide_capsule m architecture template node_cpu_class bundle =
    if not (is_memory m.kind)
    then refuse ErrorReason.capsule_incompatible
    else if not (str_eq m.architecture architecture)
    then refuse ErrorReason.capsule_incompatible
    else if not (str_eq m.cpu_class node_cpu_class)
    then refuse ErrorReason.cpu_class_mismatch
    else if not (str_eq m.template_hash template)
    then refuse ErrorReason.capsule_incompatible
    else if not (str_eq m.runtime_bundle_ref bundle)
    then refuse ErrorReason.bundle_mismatch
    else proceed

-- Memory may be restored: it was captured, by the same bundle, from the same template, and on the
-- same class of CPU where the snapshot may come from another machine.
pub record Compatible (s : SnapshotRow) (template cpu bundle : String) : Type 0 where
  pub memory : s.kind ≡ SnapshotKind.memory_and_disk
  pub same_template : s.template_hash ≡ template
  pub same_bundle : s.runtime_bundle_ref ≡ bundle
  pub same_cpu : s.tier ≡ SnapshotTier.object_store → s.cpu_class ≡ cpu

Compatible-decide :
    (s : SnapshotRow) (template cpu bundle : String) (require : Bool)
    → Compatible s template cpu bundle
    → decide (some s) template cpu bundle require ≡ from_memory
unfolding decide
Compatible-decide s template cpu bundle require c = ground (
  arith,
  c.memory,
  (eq_iff s.template_hash template).1 c.same_template,
  (eq_iff s.runtime_bundle_ref bundle).1 c.same_bundle,
  cpu_fits s.tier c.same_cpu,
)
  where
    cpu_fits :
        (t : SnapshotTier)
        → (t ≡ SnapshotTier.object_store → s.cpu_class ≡ cpu)
        → is_object_store t && not (str_eq s.cpu_class cpu) ≡ false
    cpu_fits SnapshotTier.object_store h = ground (arith, (eq_iff s.cpu_class cpu).1 (h refl))
    cpu_fits _ h = refl

decide-Compatible :
    (s : SnapshotRow) (template cpu bundle : String) (require : Bool)
    → decide (some s) template cpu bundle require ≡ from_memory
    → Compatible s template cpu bundle
unfolding decide
decide-Compatible s template cpu bundle require e = record {
  memory = ground arith;
  same_template = (eq_iff s.template_hash template).0 (ground arith);
  same_bundle = (eq_iff s.runtime_bundle_ref bundle).0 (ground arith);
  same_cpu = λ h. (eq_iff s.cpu_class cpu).0 (ground (arith, h));
}

none-decide :
    (template cpu bundle : String) (require : Bool)
    → decide none template cpu bundle require ≢ from_memory
unfolding decide
none-decide template cpu bundle require e = ground arith

-- A resume restores memory exactly when there is a snapshot that captured memory with the same
-- bundle, from the instance's current template, and, if it came through the object store, on this
-- node's class of CPU. The class of a node-local snapshot is not asked for, although the
-- specification of snapshots asks for it.
pub decide_iff :
    (o : Option SnapshotRow) (template cpu bundle : String) (require : Bool)
    → (decide o template cpu bundle require ≡ from_memory)
      ↔ ((s : SnapshotRow) × (o ≡ some s) × Compatible s template cpu bundle)
decide_iff none template cpu bundle require =
    (λ e. absurd (none-decide template cpu bundle require e), λ (s, e, c). absurd cc)
decide_iff (some s) template cpu bundle require = (
  λ e. (s, refl, decide-Compatible s template cpu bundle require e),
  λ (t, e, c).
      Compatible-decide s template cpu bundle require
        (subst (λ x. Compatible x template cpu bundle) (some_eq t e) c),
)
  where
    some_eq : (t : SnapshotRow) → ◌≡◌ {A = Option SnapshotRow} (some s) (some t) → t ≡ s
    some_eq t e = cc

-- `require_memory` turns every fallback into a refusal: with it a resume never boots cold, and
-- without it a resume is never refused.
pub decide_never_mixes :
    (o : Option SnapshotRow) (template cpu bundle : String) (reason : ErrorReason)
    → (decide o template cpu bundle true ≢ cold_boot reason)
      × (decide o template cpu bundle false ≢ refuse reason)
unfolding decide
decide_never_mixes none template cpu bundle reason = (λ e. cc, λ e. cc)
decide_never_mixes (some s) template cpu bundle reason = (λ e. ground arith, λ e. ground arith)

-- A capsule is restored exactly when it captured memory and its architecture, class of CPU,
-- template and bundle are all those of the target and the node.
pub decide_capsule_iff :
    (m : CapsuleManifest) (architecture template cpu bundle : String)
    → (decide_capsule m architecture template cpu bundle ≡ proceed) ↔ (
        (m.kind ≡ SnapshotKind.memory_and_disk)
        × (m.architecture ≡ architecture)
        × (m.cpu_class ≡ cpu)
        × (m.template_hash ≡ template)
        × (m.runtime_bundle_ref ≡ bundle))
unfolding decide_capsule
decide_capsule_iff m architecture template cpu bundle = (
  λ e. (
    ground arith,
    (eq_iff m.architecture architecture).0 (ground arith),
    (eq_iff m.cpu_class cpu).0 (ground arith),
    (eq_iff m.template_hash template).0 (ground arith),
    (eq_iff m.runtime_bundle_ref bundle).0 (ground arith),
  ),
  λ (k, a, c, t, b). ground (
    arith,
    k,
    (eq_iff m.architecture architecture).1 a,
    (eq_iff m.cpu_class cpu).1 c,
    (eq_iff m.template_hash template).1 t,
    (eq_iff m.runtime_bundle_ref bundle).1 b,
  ),
)
