-- ===== src/Events/Log.antt =====
-- The table `events` and the methods of `Db` on it (crates/barista-node-agent/src/db.rs). The rows
-- stand in the order of their cursors, so `ORDER BY cursor` is the order of the list.
use Prim.Native.String.{String}
use Prim.Native.Nat.{min, max}
use text.Mathlib.Text.{◌==◌ as str_eq}
use barista_sh.Base.{
  ℕ, zero, suc, ◌+◌, ◌-◌, Bool, not, ◌&&◌, ◌||◌, ◌==◌, ltb, leb, length, List, [], ◌∷◌, ◌++◌,
  Option, none, some, if◌then◌else◌,
}
use barista_sh.Base.Int.{ℤ, leb_ℤ}
use barista_sh.Journal.Table.{delete}
use barista_sh.Journal.Rows.{StopReason}

-- `pb::Event`
pub record Event : Type 0 where
  pub cursor : ℕ
  pub type_code : ℕ
  pub instance_id : String
  pub op_id : String
  pub state : ℕ
  pub message : String
  pub at_ms : ℤ
  pub stop_reason : Option StopReason

-- The rows, the highest cursor ever given (AUTOINCREMENT never gives one twice), and
-- `last_pruned_cursor` of `journal_meta`.
pub record Log : Type 0 where
  pub events : List Event
  pub sequence : ℕ
  pub last_pruned_cursor : ℕ

-- `Db::insert_event`: the cursor given, and the log
unfoldable pub insert_event : Event → ℤ → Log → ℕ × Log
insert_event ev now log =
    let next = log.sequence + 1 in
    (
      next,
      record log {
        events = log.events ++ (record ev { cursor = next; at_ms = now } ∷ []);
        sequence = next;
      },
    )

abbrev pub lower : ℕ → Option ℕ → Option ℕ
lower n none = some n
lower n (some m) = some (min n m)

-- `MIN(cursor)` and `MAX(cursor)`
abbrev pub min_cursor : List Event → Option ℕ
min_cursor [] = none
min_cursor (e ∷ es) = lower e.cursor (min_cursor es)

abbrev pub higher : ℕ → Option ℕ → Option ℕ
higher n none = some n
higher n (some m) = some (max n m)

abbrev pub max_cursor : List Event → Option ℕ
max_cursor [] = none
max_cursor (e ∷ es) = higher e.cursor (max_cursor es)

-- `Db::journal_floor`
unfoldable pub journal_floor : Log → ℕ
journal_floor log = elim (min_cursor log.events) [
  | some oldest ↦ oldest - 1
  | none ↦ log.last_pruned_cursor
]

-- SELECT … WHERE, and LIMIT
abbrev pub select : (Event → Bool) → List Event → List Event
select p [] = []
select p (e ∷ es) = if p e then e ∷ select p es else select p es

abbrev pub take : ℕ → List Event → List Event
take zero es = []
take (suc n) [] = []
take (suc n) (e ∷ es) = e ∷ take n es

abbrev pub older : ℤ → Event → Bool
older limit e = not (leb_ℤ limit e.at_ms)

abbrev pub pruned : ℤ → ℕ → Event → Bool
pruned limit highest e = older limit e && leb e.cursor highest

-- `Db::prune_events`: how many went, and the log
unfoldable pub prune_events : ℤ → ℕ → Log → ℕ × Log
prune_events limit chunk log = elim (max_cursor (take chunk (select (older limit) log.events))) [
  | none ↦ (0, log)
  | some highest ↦ (
    length (select (pruned limit highest) log.events),
    record log {
      events = delete (pruned limit highest) log.events;
      last_pruned_cursor = max log.last_pruned_cursor highest;
    },
  )
]

-- `Db::head_cursor`
unfoldable pub head_cursor : Log → ℕ
head_cursor log = elim (max_cursor log.events) [ some head ↦ head | none ↦ 0 ]

abbrev pub wanted : ℕ → String → Event → Bool
wanted cursor id e = ltb cursor e.cursor && (str_eq id "" || str_eq e.instance_id id)

abbrev pub limited : ℕ → List Event → List Event
limited limit es = if limit == 0 then es else take limit es

-- `Db::events_after`
unfoldable pub events_after : ℕ → String → ℕ → Log → List Event
events_after cursor id limit log = limited limit (select (wanted cursor id) log.events)
