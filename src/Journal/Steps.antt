-- ===== src/Journal/Steps.antt =====
-- The changes that the methods of `Db` (crates/barista-node-agent/src/db.rs) make to the journal,
-- as a relation, and the journals that a node reaches from an empty one.
use Prim.Native.String.{String}
use barista_sh.Base.{ℕ, Bool, Option, []}
use barista_sh.Base.Int.{ℤ}
use barista_sh.Contract.{InstanceState}
use barista_sh.Journal.Rows.{ForkMode, Journal}
use barista_sh.Journal.Submit.{Request, submit_atomically}
use barista_sh.Journal.Operations.{
  set_op_step, set_op_froze_workload, set_op_fork_mode, await_op_input, resume_op_from_input,
  finish_op_canceled, fail_inflight_ops, Finish, finish_operation, release_claims,
}
use barista_sh.Journal.Instances.{
  set_instance_state, issue_execution_epoch, set_instance_epoch, set_instance_ready,
  set_ttl_deadline, set_wake_at, point_at, unpoint,
}

abbrev pub empty_journal : Journal
empty_journal = record { instances = []; operations = []; next_execution_epoch = 0 }

-- One call of a method, whatever it returns. `opens` and `recovers` run when a
-- node starts.
pub data Change (j : Journal) : Journal → Type 0 where
  submits : (q : Request) (claim_now now : ℤ) → Change j (submit_atomically q claim_now now j).1
  steps : (id step : String) → Change j (set_op_step id step j)
  freezes : (id : String) → Change j (set_op_froze_workload id j)
  measures : (id : String) (mode : ForkMode) → Change j (set_op_fork_mode id mode j)
  parks : (id prompt : String) → Change j (await_op_input id prompt j).1
  resumes : (id step : String) → Change j (resume_op_from_input id step j).1
  cancels : (id reason : String) (now : ℤ) → Change j (finish_op_canceled id reason now j).1
  finishes : (q : Finish) (now : ℤ) → Change j (finish_operation q now j).1
  recovers : (message : String) (now : ℤ) → Change j (fail_inflight_ops message now j)
  opens : Change j (release_claims j)
  enters : (id : String) (s : InstanceState) (now : ℤ) → Change j (set_instance_state id s now j)
  issues : Change j (issue_execution_epoch j).1
  binds : (id : String) (epoch : ℕ) (now : ℤ) → Change j (set_instance_epoch id epoch now j).1
  readies : (id : String) (ready : Bool) (now : ℤ) → Change j (set_instance_ready id ready now j).1
  rearms :
      (id : String) (deadline : Option ℤ) (now : ℤ) → Change j (set_ttl_deadline id deadline now j)
  wakes : (id : String) (at : Option ℤ) (now : ℤ) → Change j (set_wake_at id at now j)
  points : (id sid : String) (now : ℤ) → Change j (point_at id sid now j)
  unpoints : (sid : String) → Change j (unpoint sid j)

pub data Reached : Journal → Type 0 where
  begins : Reached empty_journal
  goes_on : {j k : Journal} → Reached j → Change j k → Reached k
