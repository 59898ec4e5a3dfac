-- ===== src/Journal/Instances.antt =====
-- The methods of `Db` (crates/barista-node-agent/src/db.rs) that write an instance alone, and the
-- counter of execution epochs.
use Prim.Native.String.{String}
use text.Mathlib.Text.{◌==◌ as str_eq}
use barista_sh.Base.{ℕ, ◌+◌, ◌==◌, Bool, true, false, not, ◌&&◌, ltb, Option, some, if◌then◌else◌}
use barista_sh.Base.Int.{ℤ}
use barista_sh.Contract.{InstanceState, instance_state_eq}
use barista_sh.Journal.Table.{count, update}
use barista_sh.Journal.Rows.{InstanceRow, Journal, no_identity, of_instance}

abbrev pub on_instance : String → (InstanceRow → InstanceRow) → Journal → Journal
on_instance id f j = record j { instances = update (of_instance id) f j.instances }

-- The row in its new state: entering `running` starts a run epoch, and `destroyed` drops the
-- credentials.
abbrev pub entered : InstanceState → ℤ → InstanceRow → InstanceRow
entered state now r = record r {
  state = state;
  updated_at_ms = now;
  run_epoch_ms = if instance_state_eq state InstanceState.running then some now else r.run_epoch_ms;
  guest_token = if instance_state_eq state InstanceState.destroyed then "" else r.guest_token;
  identity = if instance_state_eq state InstanceState.destroyed then no_identity else r.identity;
}

-- `Db::set_instance_state`
unfoldable pub set_instance_state : String → InstanceState → ℤ → Journal → Journal
set_instance_state id state now = on_instance id (entered state now)

-- `Db::issue_execution_epoch`; the counter is an `i64` that counts up from 0
unfoldable pub issue_execution_epoch : Journal → ℕ × Journal
issue_execution_epoch j =
    let next = j.next_execution_epoch + 1 in (next, record j { next_execution_epoch = next })

-- `Db::set_instance_epoch`: whether the row was there, and the journal
unfoldable pub set_instance_epoch : String → ℕ → ℤ → Journal → Bool × Journal
set_instance_epoch id epoch now j = (
  count (of_instance id) j.instances == 1,
  on_instance id (λ r. record r { execution_epoch = epoch; updated_at_ms = now }) j,
)

abbrev differs : Bool → Bool → Bool
differs true b = not b
differs false b = b

-- `Db::set_instance_ready`: whether the value changed, and the journal
unfoldable pub set_instance_ready : String → Bool → ℤ → Journal → Bool × Journal
set_instance_ready id ready now j =
    let hit = λ (r : InstanceRow). of_instance id r && differs r.ready ready in
    (
      ltb 0 (count hit j.instances),
      record j {
        instances = update hit (λ r. record r { ready = ready; updated_at_ms = now }) j.instances;
      },
    )

-- `Db::set_ttl_deadline`
unfoldable pub set_ttl_deadline : String → Option ℤ → ℤ → Journal → Journal
set_ttl_deadline id deadline now =
    on_instance id (λ r. record r { ttl_deadline_ms = deadline; updated_at_ms = now })

-- `Db::set_wake_at`
unfoldable pub set_wake_at : String → Option ℤ → ℤ → Journal → Journal
set_wake_at id at now = on_instance id (λ r. record r { wake_at_ms = at; updated_at_ms = now })

-- the UPDATE of `Db::insert_snapshot`: the instance's latest snapshot
unfoldable pub point_at : String → String → ℤ → Journal → Journal
point_at id snapshot_id now =
    on_instance id (λ r. record r { latest_snapshot_id = snapshot_id; updated_at_ms = now })

abbrev pub points_at : String → InstanceRow → Bool
points_at snapshot_id r = str_eq r.latest_snapshot_id snapshot_id

abbrev pub unpointed : InstanceRow → InstanceRow
unpointed r = record r { latest_snapshot_id = "" }

-- the UPDATE of `Db::delete_snapshot`
unfoldable pub unpoint : String → Journal → Journal
unpoint snapshot_id j = record j {
  instances = update (points_at snapshot_id) unpointed j.instances;
}
