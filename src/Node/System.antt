-- ===== src/Node/System.antt =====
-- The tasks of a node agent (crates/barista-node-agent/src/ops.rs): submissions and executors that
-- run interleaved on one database, whose reads and writes may each fail, and a restart of the agent,
-- which loses every task.
pub mod Keeping
pub mod Journaled
pub mod Pointed
use Prim.Native.String.{String}
use barista_sh.Base.{Bool, Option, none, some, List, [], ◌∷◌, ◌++◌, ◌≡◌, ◌⊎◌}
use barista_sh.Base.Int.{ℤ}
use barista_sh.Journal.Operations.{restart}
use barista_sh.Journal.Steps.{empty_journal}
use barista_sh.Journal.Snapshots.{Db}
use barista_sh.Node.Runtime.{Call, Reply}
use barista_sh.Node.Process.{Notice, Proc, look, write, call, notify}
use barista_sh.Node.Submit.{Config, Submitting, SubmitResult, submit_claiming}
use barista_sh.Node.Executor.{execute}
use barista_sh.Node.Executor.Steps.{Execution}

-- A task with what it returns.
abbrev pub Task : Type 1
Task = (A : Type 0) × Proc A

-- The next effect of a task on the database: a read or a write that fails changes nothing, and the
-- runtime and the guest answer as they like.
pub data Progress {A : Type 0} (d : Db) : Proc A → Db → Proc A → Type 1 where
  looks : (k : Option Db → Proc A) → Progress d (look k) d (k (some d))
  look_fails : (k : Option Db → Proc A) → Progress d (look k) d (k none)
  writes :
      {R : Type 0} (w : Db → Option R × Db) (k : Option R → Proc A)
      → Progress d (write w k) (w d).1 (k (w d).0)
  write_fails :
      {R : Type 0} (w : Db → Option R × Db) (k : Option R → Proc A)
      → Progress d (write w k) d (k none)
  calls : (c : Call) (k : Reply c → Proc A) (r : Reply c) → Progress d (call c k) d (k r)
  notifies : (n : Notice) (p : Proc A) → Progress d (notify n p) d p

abbrev pub empty_db : Db
empty_db = record { journal = empty_journal; snapshots = []; capsules = [] }

-- The databases and the tasks that an agent gets to.
pub data System : Db → List Task → Type 1 where
  begins : System empty_db []
  submits :
      {d : Db} {ts : List Task} (cfg : Config) (s : Submitting)
      → System d ts
      → System d ((SubmitResult, submit_claiming cfg s) ∷ ts)
  executes :
      {d : Db} {ts : List Task} (x : Execution)
      → System d ts
      → System d ((Unit {0}, execute x) ∷ ts)
  advances :
      {d e : Db} {A : Type 0} {p q : Proc A} (ts us : List Task)
      → System d (ts ++ (A, p) ∷ us)
      → Progress d p e q
      → System e (ts ++ (A, q) ∷ us)
  restarts :
      {d : Db} {ts : List Task} (message : String) (now : ℤ)
      → System d ts
      → System (record d { journal = restart message now d.journal }) []
