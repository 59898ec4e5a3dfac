-- ===== src/Capsule/Registry.antt =====
-- The methods of `Db` on capsules and their objects (crates/barista-node-agent/src/db.rs).
use Prim.Native.String.{String, ◌++◌}
use text.Mathlib.Text.{◌==◌ as str_eq}
use barista_sh.Base.{
  ℕ, ◌+◌, ◌-◌, Bool, true, false, ◌&&◌, ◌==◌, ltb, leb, any, List, [], ◌∷◌, none, some,
  if◌then◌else◌,
}
use barista_sh.Journal.Table.{find, update, delete}
use barista_sh.Capsule.Rows.{
  CapsuleStorage, CapsuleObject, CapsuleRow, ObjectRef, Registry, of_capsule, of_digest,
}

-- `Db::capsule_tier_rank`
unfoldable pub capsule_tier_rank : CapsuleStorage → ℕ
capsule_tier_rank CapsuleStorage.unspecified = 0
capsule_tier_rank CapsuleStorage.local_dir = 1
capsule_tier_rank CapsuleStorage.object_store = 2

abbrev pub referenced : ObjectRef → ObjectRef
referenced r = record r { refcount = r.refcount + 1; verified = true; gc_pending = false }

-- the upsert of one object: a new row with one reference, or one more on the row that is there
abbrev pub take_reference : CapsuleObject → List ObjectRef → List ObjectRef
take_reference o refs =
    if any (of_digest o.digest) refs
    then update (of_digest o.digest) referenced refs
    else record {
      digest = o.digest;
      length = o.length;
      refcount = 1;
      verified = true;
      gc_pending = false;
    }
      ∷ refs

abbrev pub take_references : List CapsuleObject → List ObjectRef → List ObjectRef
take_references [] refs = refs
take_references (o ∷ os) refs = take_references os (take_reference o refs)

-- `Db::register_capsule`: the row that is registered, and the registry
unfoldable pub register_capsule : CapsuleRow → Registry → CapsuleRow × Registry
unfolding capsule_tier_rank
register_capsule row g = elim (find (of_capsule row.capsule_id) g.capsules) [
  | some existing ↦
      if ltb (capsule_tier_rank existing.storage) (capsule_tier_rank row.storage)
      then (
        record existing { storage = row.storage },
        record g {
          capsules =
              update (of_capsule row.capsule_id) (λ r. record r { storage = row.storage })
                g.capsules;
        },
      )
      else (existing, g)
  | none ↦ (
    row,
    record g { capsules = row ∷ g.capsules; refs = take_references row.manifest.objects g.refs },
  )
]

-- `MAX(refcount - 1, 0)`, and the intent to collect once it is 0
abbrev pub released : ObjectRef → ObjectRef
released r = record r {
  refcount = r.refcount - 1;
  gc_pending = if leb r.refcount 1 then true else r.gc_pending;
}

abbrev pub drop_references : List CapsuleObject → List ObjectRef → List ObjectRef
drop_references [] refs = refs
drop_references (o ∷ os) refs = drop_references os (update (of_digest o.digest) released refs)

-- `Db::delete_capsule`
unfoldable pub delete_capsule : String → Registry → Registry
delete_capsule id g = elim (find (of_capsule id) g.capsules) [
  | none ↦ g
  | some row ↦ record {
    capsules = delete (of_capsule id) g.capsules;
    refs = drop_references row.manifest.objects g.refs;
    snapshot_ids = delete (λ s. str_eq s ("capsule:" ++ id)) g.snapshot_ids;
  }
]

-- the WHERE clause of both halves of the collection
abbrev pub is_collectable : ObjectRef → Bool
is_collectable r = r.gc_pending && (r.refcount == 0)

-- the digests of the rows that pass
abbrev pub digests : (ObjectRef → Bool) → List ObjectRef → List String
digests p [] = []
digests p (r ∷ refs) = let rest = digests p refs in if p r then r.digest ∷ rest else rest

-- `Db::collectable_objects`
unfoldable pub collectable_objects : Registry → List String
collectable_objects g = digests is_collectable g.refs

-- `Db::finalize_object_gc`
unfoldable pub finalize_object_gc : String → Registry → Registry
finalize_object_gc d g = record g { refs = delete (λ r. of_digest d r && is_collectable r) g.refs }
