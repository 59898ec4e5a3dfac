-- ===== src/Node/Executor/Settles.antt =====
-- What the finalize of an executor that runs alone leaves (`execute` of
-- crates/barista-node-agent/src/ops.rs).
use Prim.Native.String.{String}
use mathlib.Core.Path.{subst}
use barista_sh.Base.{ℕ, true, false, Option, none, some, ◌++◌, ◌≡◌, refl, sym, ◌∙◌, arith}
use barista_sh.Base.Int.{ℤ}
use barista_sh.Contract.{InstanceState, OperationState, ErrorReason}
use barista_sh.Journal.Table.{find, count, update, count-guarded, find-update, find-passes}
use barista_sh.Journal.Rows.{StoredOperation, InstanceRow, Journal, of_instance, of_op}
use barista_sh.Journal.Operations.{
  set_op_step, in_flight_ops, on_ops, op_in, Work, succeeded, failed, Finish, finish_operation,
  finished_row, finished_instance,
}
use barista_sh.Journal.Snapshots.{Db}
use barista_sh.Policy.Plan.{touches_instance_state}
use barista_sh.Node.Process.{Proc}
use barista_sh.Node.Keeps.{Keeps, Safe, when, optional}
use barista_sh.Node.Sequential.{Runs, split, kept}
use barista_sh.Node.Executor.{want_epoch, bind_epoch, is_boot, Epoch}
use barista_sh.Node.Executor.Steps.{Execution, target, Done, on_journal}
use barista_sh.Node.Executor.Finalize.{
  deadline, reason, clean_up, close, committed, finalize, fail_closed, failure_committed,
  failure_finish, epoch_failure, settled_state, finish_of, finish_db,
}
use barista_sh.Node.Executor.Calls.{
  deadline-Safe, reason-Safe, clean_up-Safe, committed-Safe, failure_committed-Safe,
}
use barista_sh.Node.Executor.Conduct.{Permits}
use barista_sh.Node.Executor.Ready.{
  Ready, step-Ready, froze-Ready, mode-Ready, insert-Ready, delete-Ready, issue-Ready, bind-Ready,
}

abbrev pub outcome_state : Work → OperationState
outcome_state succeeded = OperationState.done
outcome_state (failed _ _) = OperationState.failed

-- The operation has the outcome of the work and no executor, and the instance the state reached.
pub record Settled (op_id id : String) (work : Work) (state : InstanceState) (d : Db) : Type 0 where
  pub row : StoredOperation
  pub found : find (of_op op_id) d.journal.operations ≡ some row
  pub outcome : row.op.state ≡ outcome_state work
  pub free : row.executor_active ≡ false
  pub instance_row : InstanceRow
  pub present : find (of_instance id) d.journal.instances ≡ some instance_row
  pub reached : instance_row.state ≡ state

finished_row-outcome :
    (q : Finish) (now : ℤ) (r : StoredOperation)
    → ((finished_row q now r).op.state ≡ outcome_state q.outcome)
      × ((finished_row q now r).executor_active ≡ false)
finished_row-outcome q now r = ground arith

finished_row-id :
    (q : Finish) (now : ℤ) (id : String) (r : StoredOperation)
    → of_op id (finished_row q now r) ≡ of_op id r
finished_row-id q now id r = go q.outcome refl
  where
    go : (w : Work) → q.outcome ≡ w → of_op id (finished_row q now r) ≡ of_op id r
    go succeeded e = rw e refl
    go (failed why message) e = rw e refl

-- the journal after a finalize that finds its operation in flight
finished_journal :
    (q : Finish) (now : ℤ) (j : Journal)
    → count (op_in q.op_id in_flight_ops) j.operations ≡ 1
    → (finish_operation q now j).1
      ≡ on_ops (op_in q.op_id in_flight_ops) (finished_row q now) (record j {
        instances = update (of_instance q.instance_id) (finished_instance q now) j.instances;
      })
unfolding finish_operation
finished_journal q now j e = rw e refl

-- The finalize of an operation in flight settles it.
pub finish-Settled :
    (q : Finish) (now : ℤ) (d : Db)
    → Ready q.op_id q.instance_id d
    → Settled q.op_id q.instance_id q.outcome q.state (finish_db q now d).1
finish-Settled q now d h =
    let one =
      count-guarded (of_op q.op_id) (λ r. in_flight_ops r.op.state) d.journal.operations h.row
        h.alone h.found in
    subst (λ k. Settled q.op_id q.instance_id q.outcome q.state (record d { journal = k }))
      (sym (finished_journal q now d.journal (one ∙ ground (arith, h.in_flight))))
      (record {
        row = finished_row q now h.row;
        found = ops;
        outcome = (finished_row-outcome q now h.row).0;
        free = (finished_row-outcome q now h.row).1;
        instance_row = finished_instance q now h.instance_row;
        present = instances;
        reached = refl;
      })
  where
    ops :
        find
          (of_op q.op_id)
          (update (op_in q.op_id in_flight_ops) (finished_row q now) d.journal.operations)
        ≡ some (finished_row q now h.row)
    ops = ground (
      arith,
      find-update (of_op q.op_id) (op_in q.op_id in_flight_ops) (finished_row q now)
          d.journal.operations (finished_row-id q now q.op_id),
      h.found,
      h.in_flight,
      find-passes (of_op q.op_id) d.journal.operations h.row h.found,
    )

    instances :
        find
          (of_instance q.instance_id)
          (update (of_instance q.instance_id) (finished_instance q now) d.journal.instances)
        ≡ some (finished_instance q now h.instance_row)
    instances = ground (
      arith,
      find-update (of_instance q.instance_id) (of_instance q.instance_id) (finished_instance q now)
          d.journal.instances (λ r. refl),
      h.present,
      find-passes (of_instance q.instance_id) d.journal.instances h.instance_row h.present,
    )

-- Every write of an execution before its finalize leaves its operation in flight.
pub keeps-Ready :
    (x : Execution)
    → Permits
        (λ R w. (m : Db) → Ready x.op.op_id (target x) m → Ready x.op.op_id (target x) (w m).1)
        (λ c. Unit)
        x
keeps-Ready x = record {
  stepped = λ name. step-Ready x.op.op_id (target x) name;
  froze = froze-Ready x.op.op_id (target x);
  measured = λ mode. mode-Ready x.op.op_id (target x) mode;
  inserts = λ row now c e. insert-Ready x.op.op_id (target x) row now;
  deletes = λ sid c. delete-Ready x.op.op_id (target x) sid;
  calls = λ c m. tt;
}

module _ (x : Execution) where
  abbrev pub OnReady : (R : Type 0) → (Db → Option R × Db) → Type 0
  OnReady R w = (m : Db) → Ready x.op.op_id (target x) m → Ready x.op.op_id (target x) (w m).1

  abbrev pub SettledAs : Work → InstanceState → Db → Type 0
  SettledAs work state = Settled x.op.op_id (target x) work state

  -- What a part of the execution before the write of the outcome leaves.
  pub readied :
      {A : Type 0} (d : Db) (p : Proc A) (a : A) (e : Db)
      → Safe OnReady (λ c. Unit) p
      → Ready x.op.op_id (target x) d
      → Runs d p a e
      → Ready x.op.op_id (target x) e
  readied d p a e safe h r =
      (kept (Ready x.op.op_id (target x)) (λ c. Unit) (λ _. Unit) d p a e safe h r).0

  close-Settled :
      (q : Finish) (epoch : Option ℕ) (d e : Db)
      → q.op_id ≡ x.op.op_id
      → q.instance_id ≡ target x
      → Ready q.op_id q.instance_id d
      → Runs d (close x q q.outcome epoch) tt e
      → Settled q.op_id q.instance_id q.outcome q.state e
  unfolding close
  close-Settled q epoch d e key id h r =
      (kept (Settled q.op_id q.instance_id q.outcome q.state) (λ c. Unit) (λ _. Unit)
        (finish_db q x.finish_now d).1
        (committed x q q.outcome epoch (finish_db q x.finish_now d).0) tt e
        (committed-Safe
          (λ R w.
            (m : Db)
            → Settled q.op_id q.instance_id q.outcome q.state m
            → Settled q.op_id q.instance_id q.outcome q.state (w m).1)
          (λ c. Unit) x q q.outcome epoch (finish_db q x.finish_now d).0)
        (finish-Settled q x.finish_now d h) r).0

  pub finalize-Settled :
      (epoch : Option ℕ) (result : Done) (d e : Db)
      → Ready x.op.op_id (target x) d
      → Runs d (finalize x epoch result) tt e
      → SettledAs (result.0) (settled_state x (result.0)) e
  unfolding finalize
  finalize-Settled epoch result d e h r =
      let work = result.0 in
      let state = settled_state x work in
      let begun = step-Ready x.op.op_id (target x) "finalize" d h in
      let (ttl, d1, r1, s1) = split _ (deadline x state) _ tt e r in
      let h1 =
        readied _ (deadline x state) ttl d1 (deadline-Safe OnReady (λ c. Unit) x state) begun r1 in
      let (why, d2, r2, s2) = split d1 (reason x state) _ tt e s1 in
      let h2 =
        readied d1 (reason x state) why d2
          (reason-Safe OnReady (λ c. Unit) x work (λ c m. tt) state) h1 r2 in
      let (late, d3, r3, s3) = split d2 (clean_up x work) _ tt e s2 in
      let h3 =
        readied d2 (clean_up x work) late d3 (clean_up-Safe OnReady (λ c. Unit) x work (λ c m. tt))
          h2 r3 in
      close-Settled (finish_of x state ttl why (result.1 ++ late) work) epoch d3 e refl refl h3 s3

  -- only a boot can end without an epoch that it wanted
  abbrev pub WantsIt : Epoch → Type 0
  WantsIt Epoch.unbound = is_boot x.kind ≡ true
  WantsIt _ = Unit

  boots-Settled :
      is_boot x.kind ≡ true
      → (why : ErrorReason) (message : String)
      → settled_state x (failed why message) ≡ InstanceState.failed
  unfolding touches_instance_state
  boots-Settled b why message = ground arith

  pub fail_closed-Settled :
      (d e : Db)
      → is_boot x.kind ≡ true
      → Ready x.op.op_id (target x) d
      → Runs d (fail_closed x) tt e
      → SettledAs epoch_failure (settled_state x epoch_failure) e
  unfolding fail_closed
  fail_closed-Settled d e b h r =
      let begun = step-Ready x.op.op_id (target x) "finalize" d h in
      let d1 = on_journal (set_op_step x.op.op_id "finalize") d in
      let (answer, d2) = finish_db (failure_finish x) x.finish_now d1 in
      subst (λ s. SettledAs epoch_failure s e)
        (sym (boots-Settled b ErrorReason.unspecified "the execution epoch could not be bound"))
        (kept (SettledAs epoch_failure InstanceState.failed) (λ c. Unit) (λ _. Unit) d2
          (failure_committed x answer) tt e
          (failure_committed-Safe
            (λ R w.
              (m : Db)
              → SettledAs epoch_failure InstanceState.failed m
              → SettledAs epoch_failure InstanceState.failed (w m).1)
            (λ c. Unit) x answer)
          (finish-Settled (failure_finish x) x.finish_now d1 begun) r).0

  pub wanted : Keeps OnReady (λ c. Unit) WantsIt (want_epoch x)
  unfolding want_epoch bind_epoch
  wanted =
      when OnReady (λ c. Unit) WantsIt (is_boot x.kind) _ _
        (λ b. (
          issue-Ready x.op.op_id (target x),
          λ o.
              optional OnReady (λ c. Unit) WantsIt _ _ o b
                (λ epoch. (
                  bind-Ready x.op.op_id (target x) (target x) epoch x.bind_now,
                  λ there.
                      elim there
                        as (λ k.
                          WantsIt (elim k [ none ↦ Epoch.unbound | some _ ↦ Epoch.bound epoch ])) [
                            | none ↦ b
                            | some _ ↦ tt
                          ],
                )),
        ))
        (λ _. tt)
