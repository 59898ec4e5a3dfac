-- ===== src/Node/Executor/Calling.antt =====
-- What an executor (`execute` of crates/barista-node-agent/src/ops.rs) may ask of the runtime, by
-- what it has heard and written before.
use Prim.Native.String.{String}
use barista_sh.Base.{Bool, false, Option, List, ◌∷◌, ◌≡◌, ◌⊎◌}
use barista_sh.Journal.Operations.{Work}
use barista_sh.Journal.Snapshots.{Db}
use barista_sh.Node.Runtime.{Call, Reply, SnapshotRef, ok}
use barista_sh.Node.Process.{Proc, done, look, write, call, notify}
use barista_sh.Node.Log.{carried_out}
use barista_sh.Node.Executor.Steps.{Execution, target}
use barista_sh.Node.Executor.Conduct.{ToGuest, Makes}
use barista_sh.Node.Executor.Calls.{Closing}

-- What a process has done, the latest first: its writes, with whether they were carried out, and its
-- calls, with their replies.
pub data Past : Type 0 where
  wrote : Bool → Past
  heard : (c : Call) → Reply c → Past

-- Along every run of a process, whatever is answered and whatever fails, each call is one that its
-- past allows.
abbrev pub Heeds : {A : Type 0} → (List Past → Call → Type 0) → List Past → Proc A → Type 0
Heeds P h (done a) = Unit
Heeds P h (look k) = (r : Option Db) → Heeds P h (k r)
Heeds P h (write {R} w k) = (r : Option R) → Heeds P (Past.wrote (carried_out r) ∷ h) (k r)
Heeds P h (call c k) = P h c × ((r : Reply c) → Heeds P (Past.heard c r ∷ h) (k r))
Heeds P h (notify n p) = Heeds P h p

-- The calls of a capture: the guest's, the capture itself, and, where it was answered with a snapshot
-- and the write of that snapshot's row failed, the deletion of that snapshot.
abbrev pub Capturing : String → Option String → List Past → Call → Type 0
Capturing id name h (Call.create_snapshot i n) = (i ≡ id) × (n ≡ name)
Capturing id name h (Call.delete_snapshot sid) =
    (s : SnapshotRef) × (before : List Past) × (b c : Bool) × (s.snapshot_id ≡ sid)
    × (h
        ≡ Past.wrote c
          ∷ Past.wrote false
          ∷ Past.wrote b
          ∷ Past.heard (Call.create_snapshot id name) (ok s)
          ∷ before)
Capturing id name h c = ToGuest id c

module _ (x : Execution) (name : Option String) where
  abbrev Allows : List Past → Call → Type 0
  Allows = Capturing (target x) name

-- The calls of the runtime and the guest that an executor may make: its verb's, and its end's.
abbrev pub MayCall : Execution → Call → Type 0
MayCall x c = Makes x.payload (target x) c ⊎ ((work : Work) × Closing x work c)
