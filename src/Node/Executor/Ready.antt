-- ===== src/Node/Executor/Ready.antt =====
-- The database that an executor (`execute` of crates/barista-node-agent/src/ops.rs) starts from,
-- and that its writes before the finalize keep: its operation is in flight, its instance there.
use Prim.Native.String.{String}
use mathlib.Core.Path.{subst}
use barista_sh.Base.{
  ℕ, ◌≤◌, Bool, true, some, List, if◌then◌else◌, ◌≡◌, inl, inr, refl, sym, ◌∙◌, arith,
}
use barista_sh.Base.Int.{ℤ}
use barista_sh.Contract.{OperationState}
use barista_sh.Machine.Operation.{op_is_in_flight}
use barista_sh.Journal.Table.{find, count, update, count-update, find-update}
use barista_sh.Journal.Rows.{ForkMode, StoredOperation, InstanceRow, of_instance, of_op}
use barista_sh.Journal.Operations.{
  in_flight_ops, op_states_where, op_in, on_ops, set_op, set_step, set_op_step,
  set_op_froze_workload, set_op_fork_mode,
}
use barista_sh.Journal.Instances.{set_instance_epoch, issue_execution_epoch, point_at, unpoint}
use barista_sh.Journal.Snapshots.{Db, SnapshotRow, insert_snapshot, delete_snapshot}
use barista_sh.Journal.Outcomes.{find-cases}
use barista_sh.Node.Executor.Steps.{on_journal}
use barista_sh.Node.Executor.{issue_db, bind_db}

pub record Ready (op_id id : String) (d : Db) : Type 0 where
  pub row : StoredOperation
  pub found : find (of_op op_id) d.journal.operations ≡ some row
  pub in_flight : in_flight_ops row.op.state ≡ true
  pub alone : count (of_op op_id) d.journal.operations ≤ 1
  pub instance_row : InstanceRow
  pub present : find (of_instance id) d.journal.instances ≡ some instance_row

-- an UPDATE of instances keeps the row of a key that it keeps
there :
    (id : String) (p : InstanceRow → Bool) (f : InstanceRow → InstanceRow) (rs : List InstanceRow)
    (r : InstanceRow)
    → ((r : InstanceRow) → of_instance id (f r) ≡ of_instance id r)
    → find (of_instance id) rs ≡ some r
    → (s : InstanceRow) × (find (of_instance id) (update p f rs) ≡ some s)
there id p f rs r h e =
    (if p r then f r else r, ground (arith, find-update (of_instance id) p f rs h))

module _ (op_id id : String) where
  pub ops-Ready :
      (p : StoredOperation → Bool) (f : StoredOperation → StoredOperation) (d : Db)
      → ((r : StoredOperation) → of_op op_id (f r) ≡ of_op op_id r)
      → ((r : StoredOperation)
          → in_flight_ops r.op.state ≡ true
          → in_flight_ops (f r).op.state ≡ true)
      → Ready op_id id d
      → Ready op_id id (on_journal (on_ops p f) d)
  ops-Ready p f d key flight h =
      elim (find-cases (of_op op_id) p f d.journal.operations h.row key h.found) [
        | inl (hit, e) ↦ record {
          row = f h.row;
          found = e;
          in_flight = flight h.row h.in_flight;
          alone = fewer;
          instance_row = h.instance_row;
          present = h.present;
        }
        | inr (miss, e) ↦ record {
          row = h.row;
          found = e;
          in_flight = h.in_flight;
          alone = fewer;
          instance_row = h.instance_row;
          present = h.present;
        }
      ]
    where
      fewer : count (of_op op_id) (update p f d.journal.operations) ≤ 1
      fewer = ground (
        arith,
        h.alone,
        count-update (of_op op_id) p f d.journal.operations (λ r t. sym (key r) ∙ t),
      )

  pub instances-Ready :
      (p : InstanceRow → Bool) (f : InstanceRow → InstanceRow) (d e : Db)
      → ((r : InstanceRow) → of_instance id (f r) ≡ of_instance id r)
      → e.journal.operations ≡ d.journal.operations
      → e.journal.instances ≡ update p f d.journal.instances
      → Ready op_id id d
      → Ready op_id id e
  instances-Ready p f d e key ops rows h =
      let (s, found) = there id p f d.journal.instances h.instance_row key h.present in
      record {
        row = h.row;
        found = subst (λ l. find (of_op op_id) l ≡ some h.row) (sym ops) h.found;
        in_flight = h.in_flight;
        alone = subst (λ l. count (of_op op_id) l ≤ 1) (sym ops) h.alone;
        instance_row = s;
        present = subst (λ l. find (of_instance id) l ≡ some s) (sym rows) found;
      }

  pub step-Ready :
      (name : String) (d : Db)
      → Ready op_id id d
      → Ready op_id id (on_journal (set_op_step op_id name) d)
  unfolding set_op_step in_flight_ops op_states_where op_is_in_flight
  step-Ready name d h =
      ops-Ready (op_in op_id in_flight_ops) (set_op (set_step OperationState.running name)) d
        (λ r. refl) (λ r t. refl) h

  pub froze-Ready :
      (d : Db) → Ready op_id id d → Ready op_id id (on_journal (set_op_froze_workload op_id) d)
  unfolding set_op_froze_workload
  froze-Ready d h =
      ops-Ready (of_op op_id) (set_op (λ o. record o { froze_workload = true })) d (λ r. refl)
        (λ r t. t) h

  pub mode-Ready :
      (mode : ForkMode) (d : Db)
      → Ready op_id id d
      → Ready op_id id (on_journal (set_op_fork_mode op_id mode) d)
  unfolding set_op_fork_mode
  mode-Ready mode d h =
      ops-Ready (of_op op_id) (set_op (λ o. record o { actual_fork_mode = mode })) d (λ r. refl)
        (λ r t. t) h

  pub insert-Ready :
      (row : SnapshotRow) (now : ℤ) (d : Db)
      → Ready op_id id d
      → Ready op_id id (insert_snapshot row now d)
  unfolding insert_snapshot point_at
  insert-Ready row now d h = instances-Ready _ _ d _ (λ r. refl) refl refl h

  pub delete-Ready :
      (sid : String) (d : Db) → Ready op_id id d → Ready op_id id (delete_snapshot sid d)
  unfolding delete_snapshot unpoint
  delete-Ready sid d h = instances-Ready _ _ d _ (λ r. refl) refl refl h

  pub issue-Ready : (d : Db) → Ready op_id id d → Ready op_id id (issue_db d).1
  unfolding issue_execution_epoch
  issue-Ready d h = record {
    row = h.row;
    found = h.found;
    in_flight = h.in_flight;
    alone = h.alone;
    instance_row = h.instance_row;
    present = h.present;
  }

  pub bind-Ready :
      (i : String) (epoch : ℕ) (now : ℤ) (d : Db)
      → Ready op_id id d
      → Ready op_id id (bind_db i epoch now d).1
  unfolding set_instance_epoch
  bind-Ready i epoch now d h = instances-Ready _ _ d _ (λ r. refl) refl refl h
