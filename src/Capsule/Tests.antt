-- ===== src/Capsule/Tests.antt =====
-- Concrete runs of the registry of crates/barista-node-agent/src/db.rs.
use barista_sh.Base.{[], ◌∷◌, In, none, ◌≡◌, ◌≢◌, ◌↔◌, inl, refl}
use barista_sh.Base.Int.{pos}
use barista_sh.Journal.Table.{find}
use barista_sh.Capsule.Rows.{CapsuleStorage, CapsuleObject, CapsuleRow, Registry, of_digest}
use barista_sh.Capsule.Registry.{register_capsule, delete_capsule, collectable_objects}
use barista_sh.Capsule.Counting.{mentions}
use barista_sh.Capsule.Counted.{
  Counted, empty_registry, registers, deletes, Arrived, begins, calls, Arrived-Counted,
}
use barista_sh.Capsule.Collecting.{collectable_iff}

abbrev shared : CapsuleObject
shared = record { digest = "d1"; length = 10 }

abbrev own : CapsuleObject
own = record { digest = "d2"; length = 20 }

abbrev capsule_a : CapsuleRow
capsule_a = record {
  capsule_id = "a";
  manifest = record { lineage_id = "l"; objects = shared ∷ own ∷ []; encoded = "" };
  storage = CapsuleStorage.local_dir;
  total_size = 30;
  created_at_ms = pos 1;
}

abbrev capsule_b : CapsuleRow
capsule_b = record {
  capsule_id = "b";
  manifest = record { lineage_id = "l"; objects = shared ∷ []; encoded = "" };
  storage = CapsuleStorage.object_store;
  total_size = 10;
  created_at_ms = pos 2;
}

abbrev both : Registry
both = (register_capsule capsule_b (register_capsule capsule_a empty_registry).1).1

abbrev only_b : Registry
only_b = delete_capsule "a" both

both-Arrived : Arrived both
both-Arrived = calls (calls begins (registers capsule_a)) (registers capsule_b)

only_b-Arrived : Arrived only_b
only_b-Arrived = calls both-Arrived (deletes "a")

-- The object that only the deleted capsule named is collectable, the shared one is not.
only_b-collectable : collectable_objects only_b ≡ "d2" ∷ []
unfolding register_capsule delete_capsule collectable_objects
only_b-collectable = refl

b-live : In capsule_b only_b.capsules
unfolding register_capsule delete_capsule
b-live = inl refl

Arrived-Counted_example : Counted only_b
Arrived-Counted_example = Arrived-Counted only_b-Arrived

collectable_iff_example :
    In "d2" (collectable_objects only_b)
    ↔ ((mentions "d2" only_b.capsules ≡ 0) × (find (of_digest "d2") only_b.refs ≢ none))
collectable_iff_example = collectable_iff only_b-Arrived "d2"
