-- ===== src/Node/System/Journaled.antt =====
-- The journal under the tasks of crates/barista-node-agent/src/ops.rs: whatever they do, it is one
-- that the methods of `Db` reach.
use barista_sh.Base.{List}
use barista_sh.Journal.Operations.{restart}
use barista_sh.Journal.Steps.{
  submits, steps, freezes, measures, finishes, recovers, opens, issues, binds, points, unpoints,
  Reached, begins, goes_on,
}
use barista_sh.Journal.Invariant.{Sound}
use barista_sh.Journal.Invariant.Preserved.{Reached-Sound}
use barista_sh.Journal.Snapshots.{Db, insert_snapshot, delete_snapshot}
use barista_sh.Node.Keeps.{Safe}
use barista_sh.Node.Submit.{Config, Submitting, submit_claiming}
use barista_sh.Node.Submitted.{submit-Safe}
use barista_sh.Node.Executor.{execute}
use barista_sh.Node.Executor.Steps.{Execution}
use barista_sh.Node.Executor.Calls.{execute-Safe}
use barista_sh.Node.System.{Task, System}
use barista_sh.Node.System.Keeping.{Preserves, always}

abbrev ReachedDb : Db → Type 0
ReachedDb d = Reached d.journal

-- Every write of an executor and of a submission is a call of a method of the journal.
execute-Reached : (x : Execution) → Safe (Preserves ReachedDb) (λ c. Unit) (execute x)
unfolding insert_snapshot delete_snapshot
execute-Reached x =
    execute-Safe (Preserves ReachedDb) (λ c. Unit) x
      (record {
        stepped = λ name d r. goes_on r (steps x.op.op_id name);
        froze = λ d r. goes_on r (freezes x.op.op_id);
        measured = λ mode d r. goes_on r (measures x.op.op_id mode);
        inserts = λ row now c e d r. goes_on r (points row.instance_id row.snapshot_id now);
        deletes = λ sid c d r. goes_on r (unpoints sid);
        calls = λ c m. tt;
      })
      (record {
        steps = λ name d r. goes_on r (steps x.op.op_id name);
        finishes = λ q e f d r. goes_on r (finishes q x.finish_now);
      })
      (λ work c m. tt)
      (record {
        issues = λ d r. goes_on r issues;
        binds = λ epoch d r. goes_on r (binds _ epoch x.bind_now);
      })

submit-Reached :
    (cfg : Config) (s : Submitting) → Safe (Preserves ReachedDb) (λ c. Unit) (submit_claiming cfg s)
submit-Reached cfg s =
    submit-Safe (Preserves ReachedDb) (λ c. Unit) tt
      (λ q claim_now now d r. goes_on r (submits q claim_now now)) cfg s

-- The journal under the tasks is one that the methods of the journal reach from the empty one.
pub System-Reached : (d : Db) (ts : List Task) → System d ts → Reached d.journal
unfolding restart
System-Reached =
    always ReachedDb begins (λ message now d r. goes_on (goes_on r opens) (recovers message now))
      execute-Reached submit-Reached

-- However the submissions and the executors of an agent are interleaved, whatever fails and however
-- often the agent restarts, its operations are sound: at most one has an executor on each instance,
-- one in flight has its executor, no two have the same id, and no two the same key.
pub tasks-Sound : (d : Db) (ts : List Task) → System d ts → Sound d.journal.operations
tasks-Sound d ts h = Reached-Sound (System-Reached d ts h)
