-- ===== src/Node/System/Keeping.antt =====
-- A property of the database that every write of every task of crates/barista-node-agent/src/ops.rs
-- keeps holds however the tasks are interleaved.
use Prim.Native.String.{String}
use barista_sh.Base.{Option, none, some, List, [], ◌∷◌, ◌++◌, All}
use barista_sh.Base.Int.{ℤ}
use barista_sh.Journal.Operations.{restart}
use barista_sh.Journal.Snapshots.{Db}
use barista_sh.Node.Process.{Proc}
use barista_sh.Node.Keeps.{Safe}
use barista_sh.Node.Submit.{Config, Submitting, submit_claiming}
use barista_sh.Node.Executor.{execute}
use barista_sh.Node.Executor.Steps.{Execution, on_journal}
use barista_sh.Node.System.{Task, Progress, empty_db, System}

module _ (I : Db → Type 0) where
  abbrev pub Preserves : (R : Type 0) → (Db → Option R × Db) → Type 0
  Preserves R w = (d : Db) → I d → I (w d).1

  abbrev TaskSafe : Task → Type 0
  TaskSafe t = Safe Preserves (λ c. Unit) (t.1)

  advanced :
      {A : Type 0} (d e : Db) (p q : Proc A)
      → Progress d p e q
      → Safe Preserves (λ c. Unit) p
      → I d
      → Safe Preserves (λ c. Unit) q × I e
  advanced d e p q (Progress.looks k) h r = (h (some d), r)
  advanced d e p q (Progress.look_fails k) h r = (h none, r)
  advanced d e p q (Progress.writes w k) h r = (h.1 (w d).0, h.0 d r)
  advanced d e p q (Progress.write_fails w k) h r = (h.1 none, r)
  advanced d e p q (Progress.calls c k a) h r = (h.1 a, r)
  advanced d e p q (Progress.notifies n p') h r = (h, r)

  one_of : (ts us : List Task) (t : Task) → All TaskSafe (ts ++ t ∷ us) → TaskSafe t
  one_of [] us t (h, hs) = h
  one_of (x ∷ ts) us t (h, hs) = one_of ts us t hs

  replaced :
      (ts us : List Task) (t u : Task)
      → TaskSafe u
      → All TaskSafe (ts ++ t ∷ us)
      → All TaskSafe (ts ++ u ∷ us)
  replaced [] us t u g (h, hs) = (g, hs)
  replaced (x ∷ ts) us t u g (h, hs) = (h, replaced ts us t u g hs)

  module _ (start : I empty_db)
      (again : (message : String) (now : ℤ) (d : Db) → I d → I (on_journal (restart message now) d))
      (executions : (x : Execution) → Safe Preserves (λ c. Unit) (execute x))
      (submissions : (cfg : Config) (s : Submitting)
        → Safe Preserves (λ c. Unit) (submit_claiming cfg s)) where
    both : (d : Db) (ts : List Task) → System d ts → All TaskSafe ts × I d
    both d ts System.begins = (tt, start)
    both d ts (System.submits cfg s h) = let (all, r) = both _ _ h in ((submissions cfg s, all), r)
    both d ts (System.executes x h) = let (all, r) = both _ _ h in ((executions x, all), r)
    both d ts (System.advances {e = e} {A = A} {p = p} {q = q} us vs h move) =
        let (all, r) = both _ _ h in
        let (safe, next) = advanced _ e p q move (one_of us vs (A, p) all) r in
        (replaced us vs (A, p) (A, q) safe all, next)
    both d ts (System.restarts message now h) =
        let (all, r) = both _ _ h in (tt, again message now _ r)

    pub always : (d : Db) (ts : List Task) → System d ts → I d
    always d ts h = (both d ts h).1
