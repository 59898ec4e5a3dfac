-- ===== src/Reconcile/Vanished.antt =====
-- `reconcile_vanished_sandboxes` of crates/barista-node-agent/src/reconcile.rs: an instance that is
-- RUNNING in the journal, and whose sandbox is absent in three passes in a row, is failed.
pub mod Counting
pub mod Exact
pub mod Failing
pub mod Debounce
use Prim.Native.String.{String}
use text.Mathlib.Text.{◌==◌ as str_eq}
use barista_sh.Base.{
  ℕ, ◌+◌, ltb, Bool, true, false, not, Option, none, some, List, [], ◌∷◌, any, if◌then◌else◌,
}
use barista_sh.Base.Int.{ℤ}
use barista_sh.Contract.{InstanceState, instance_state_eq}
use barista_sh.Journal.Rows.{InstanceRow}
use barista_sh.Journal.Instances.{set_instance_state}
use barista_sh.Journal.Snapshots.{Db}
use barista_sh.Node.Runtime.{Sandbox, Answer, ok, err, Call}
use barista_sh.Node.Process.{Notice, Proc, ◌>>=◌, ◌>>◌, pure, tell, ask, query, update_db}
use barista_sh.Node.Submit.{Config}
use barista_sh.Node.Executor.Steps.{on_journal}

abbrev pub contains : String → List String → Bool
contains id ids = any (λ i. str_eq i id) ids

-- `vanished_sandbox_counts`: in how many passes in a row each instance has been missing
abbrev pub Counts : Type 0
Counts = List (String × ℕ)

abbrev pub misses : String → Counts → ℕ
misses id [] = 0
misses id ((i, n) ∷ rest) = if str_eq i id then n else misses id rest

abbrev pub forget : String → Counts → Counts
forget id [] = []
forget id ((i, n) ∷ rest) = let left = forget id rest in if str_eq i id then left else (i, n) ∷ left

abbrev pub retain : List String → Counts → Counts
retain ids [] = []
retain ids ((i, n) ∷ rest) =
    let left = retain ids rest in if contains i ids then (i, n) ∷ left else left

abbrev pub threshold : ℕ
threshold = 3

-- what a pass makes of the counts
abbrev pub counted_one : List String → String → Counts → Counts
counted_one present id counts =
    if contains id present
    then forget id counts
    else if ltb (misses id counts + 1) threshold
    then (id, misses id counts + 1) ∷ forget id counts
    else forget id counts

abbrev pub overdue : List String → String → Counts → Bool
overdue present id counts =
    if contains id present then false else not (ltb (misses id counts + 1) threshold)

-- the write of a failed instance, and what is announced of it; `true` where it was written
unfoldable pub fail_vanished : String → ℤ → Proc Bool
fail_vanished id now = do
  done ← update_db (on_journal (set_instance_state id InstanceState.failed now))
  elim done [
    | none ↦ pure false
    | some _ ↦ do
      tell (Notice.state_changed id "" InstanceState.failed none)
      tell (Notice.degradation id "" "the sandbox of this RUNNING instance has vanished")
      pure true
  ]

-- the loop over the instances that the journal has as RUNNING: the counts after it, and the ids it
-- failed
unfoldable pub walk : List String → ℤ → List String → Counts → Proc (Counts × List String)
unfolding fail_vanished
walk present now [] counts = pure (counts, [])
walk present now (id ∷ ids) counts =
    let rest = walk present now ids (counted_one present id counts) in
    if overdue present id counts
    then (do
      failed ← fail_vanished id now
      found ← rest
      pure (found.0, if failed then id ∷ found.1 else found.1))
    else rest

unfoldable pub stamp_each : List String → Proc (Unit {0})
stamp_each [] = pure tt
stamp_each (id ∷ ids) = do tell (Notice.stamp_lease_state id); stamp_each ids

abbrev pub running_ids : List InstanceRow → List String
running_ids [] = []
running_ids (r ∷ rs) =
    let rest = running_ids rs in
    if instance_state_eq r.state InstanceState.running then r.instance_id ∷ rest else rest

abbrev pub owners : List Sandbox → List String
owners [] = []
owners (s ∷ ss) = s.instance_id ∷ owners ss

-- a pass over the inventory that the backend answered with
unfoldable pub inspected : ℤ → Counts → Answer (List Sandbox) → Proc Counts
unfolding walk stamp_each
inspected now counts (err _) = pure counts
inspected now counts (ok present) = do
  rows ← query (λ d. running_ids d.journal.instances)
  elim rows [
    | none ↦ pure counts
    | some running ↦ do
      found ← walk (owners present) now running (retain running counts)
      stamp_each (found.1)
      pure (found.0)
  ]

-- one pass, from the counts before it to the counts after it
unfoldable pub reconcile_vanished_sandboxes : Config → ℤ → Counts → Proc Counts
unfolding inspected
reconcile_vanished_sandboxes cfg now counts =
    if not cfg.enumerates_sandboxes
    then pure counts
    else (do sandboxes ← ask Call.list_sandboxes; inspected now counts sandboxes)
