-- ===== src/Capsule/Rows.antt =====
-- The rows of `capsules` and `object_refs` (crates/barista-node-agent/src/db.rs).
use Prim.Native.String.{String}
use text.Mathlib.Text.{◌==◌ as str_eq}
use barista_sh.Base.{ℕ, Bool, List}
use barista_sh.Base.Int.{ℤ}

pub data CapsuleStorage : Type 0 where
  unspecified local_dir object_store : CapsuleStorage

pub record CapsuleObject : Type 0 where
  pub digest : String
  pub length : ℕ

-- What the registry reads of a manifest, and the encoding of its other fields.
pub record CapsuleManifest : Type 0 where
  pub lineage_id : String
  pub objects : List CapsuleObject
  pub encoded : String

pub record CapsuleRow : Type 0 where
  pub capsule_id : String
  pub manifest : CapsuleManifest
  pub storage : CapsuleStorage
  pub total_size : ℕ
  pub created_at_ms : ℤ

pub record ObjectRef : Type 0 where
  pub digest : String
  pub length : ℕ
  pub refcount : ℕ
  pub verified : Bool
  pub gc_pending : Bool

-- The tables, and the ids of the table of snapshots.
pub record Registry : Type 0 where
  pub capsules : List CapsuleRow
  pub refs : List ObjectRef
  pub snapshot_ids : List String

abbrev pub of_capsule : String → CapsuleRow → Bool
of_capsule id r = str_eq r.capsule_id id

abbrev pub of_digest : String → ObjectRef → Bool
of_digest d r = str_eq r.digest d
