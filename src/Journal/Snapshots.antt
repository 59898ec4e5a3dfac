-- ===== src/Journal/Snapshots.antt =====
-- The table `snapshots` (crates/barista-node-agent/src/db.rs), and the node's database as its
-- operations use it: the journal, the snapshots, and the registered capsules.
use Prim.Native.Nat.{Ordering}
use Prim.Native.String.{String, compare}
use text.Mathlib.Text.{◌==◌ as str_eq}
use barista_sh.Base.{ℕ, Bool, true, false, ◌&&◌, ◌||◌, List, [], ◌∷◌, Option, none, if◌then◌else◌}
use barista_sh.Base.Int.{ℤ, leb_ℤ}
use barista_sh.Contract.Spec.{SnapshotKind, SnapshotTier, HookOutcome}
use barista_sh.Journal.Table.{find, delete}
use barista_sh.Journal.Rows.{InstanceRow, Journal, of_instance}
use barista_sh.Journal.Instances.{point_at, unpoint}
use barista_sh.Capsule.Rows.{CapsuleRow}

-- `SnapshotRow`
pub record SnapshotRow : Type 0 where
  pub snapshot_id : String
  pub instance_id : String
  pub kind : SnapshotKind
  pub cpu_class : String
  pub template_hash : String
  pub runtime_bundle_ref : String
  pub tier : SnapshotTier
  pub size_bytes : ℕ
  pub created_at_ms : ℤ
  pub pre_snapshot_hook : Option HookOutcome
  pub name : String

pub record Db : Type 0 where
  pub journal : Journal
  pub snapshots : List SnapshotRow
  pub capsules : List CapsuleRow

abbrev pub of_snapshot : String → SnapshotRow → Bool
of_snapshot id r = str_eq r.snapshot_id id

-- `Db::get_instance`
abbrev pub get_instance : String → Db → Option InstanceRow
get_instance id d = find (of_instance id) d.journal.instances

-- `Db::get_snapshot`
unfoldable pub get_snapshot : String → Db → Option SnapshotRow
get_snapshot id d = find (of_snapshot id) d.snapshots

-- `Db::snapshot_named`; an empty name names nothing
unfoldable pub snapshot_named : String → String → Db → Option SnapshotRow
snapshot_named id name d =
    if str_eq name ""
    then none
    else find (λ (r : SnapshotRow). str_eq r.instance_id id && str_eq r.name name) d.snapshots

-- `Db::insert_snapshot`: INSERT OR REPLACE, and the pointer, in one transaction
unfoldable pub insert_snapshot : SnapshotRow → ℤ → Db → Db
insert_snapshot row now d = record d {
  journal = point_at row.instance_id row.snapshot_id now d.journal;
  snapshots = row ∷ delete (of_snapshot row.snapshot_id) d.snapshots;
}

-- `Db::delete_snapshot`: the row, and every pointer at it, in one transaction
unfoldable pub delete_snapshot : String → Db → Db
delete_snapshot id d = record d {
  journal = unpoint id d.journal;
  snapshots = delete (of_snapshot id) d.snapshots;
}

later_id : Ordering → Bool
later_id Ordering.gt = true
later_id _ = false

-- ORDER BY created_at_ms DESC, snapshot_id DESC
newer : SnapshotRow → SnapshotRow → Bool
unfolding later_id
newer r s =
    if leb_ℤ r.created_at_ms s.created_at_ms
    then leb_ℤ s.created_at_ms r.created_at_ms && later_id (compare r.snapshot_id s.snapshot_id)
    else true

place : SnapshotRow → List SnapshotRow → List SnapshotRow
unfolding newer
place r [] = r ∷ []
place r (s ∷ rest) = let after = s ∷ place r rest in if newer r s then r ∷ s ∷ rest else after

-- `Db::list_snapshots`; an empty id stands for every instance
list_from : String → List SnapshotRow → List SnapshotRow
unfolding place
list_from id [] = []
list_from id (r ∷ rest) =
    let later = list_from id rest in
    if str_eq id "" || str_eq r.instance_id id then place r later else later

unfoldable pub list_snapshots : String → Db → List SnapshotRow
unfolding list_from
list_snapshots id d = list_from id d.snapshots
