-- ===== src/Journal/Deadline.antt =====
-- The deadlines that a submission consumes: `Claim::column` and `take_deadline` of
-- crates/barista-node-agent/src/db.rs.
use Prim.Native.String.{String}
use barista_sh.Base.{Bool, false, ◌&&◌, ◌==◌, Option, none, some}
use barista_sh.Base.Int.{ℤ, leb_ℤ, eqb_ℤ}
use barista_sh.Journal.Table.{count, update}
use barista_sh.Journal.Rows.{InstanceRow, Journal, Claim, ttl_expiry, wake, of_instance}

-- The column that a claim clears.
abbrev pub column : Claim → InstanceRow → Option ℤ
column (ttl_expiry d) r = r.ttl_deadline_ms
column (wake d) r = r.wake_at_ms

-- The value that it must still hold.
abbrev pub observed : Claim → ℤ
observed (ttl_expiry d) = d
observed (wake d) = d

abbrev pub cleared : Claim → ℤ → InstanceRow → InstanceRow
cleared (ttl_expiry d) now r = record r { ttl_deadline_ms = none; updated_at_ms = now }
cleared (wake d) now r = record r { wake_at_ms = none; updated_at_ms = now }

-- the WHERE clause; a NULL column passes no comparison
abbrev holds_due : ℤ → ℤ → Option ℤ → Bool
holds_due expected now none = false
holds_due expected now (some d) = eqb_ℤ d expected && leb_ℤ d now

abbrev pub claimable : String → Claim → ℤ → InstanceRow → Bool
claimable id claim now r = of_instance id r && holds_due (observed claim) now (column claim r)

-- `take_deadline`: whether it took the deadline, and the journal without it
unfoldable pub take_deadline : String → Claim → ℤ → Journal → Bool × Journal
take_deadline id claim now j = (
  count (claimable id claim now) j.instances == 1,
  record j { instances = update (claimable id claim now) (cleared claim now) j.instances },
)
