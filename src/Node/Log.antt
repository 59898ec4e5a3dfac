-- ===== src/Node/Log.antt =====
-- What a process does to others, in order: its writes, with whether they were carried out, and its
-- calls of the runtime and the guest.
use barista_sh.Base.{Bool, true, false, Option, none, some, List, [], ◌∷◌, ◌≡◌}
use barista_sh.Journal.Snapshots.{Db}
use barista_sh.Node.Runtime.{Call, Reply}
use barista_sh.Node.Process.{Proc, done, look, write, call, notify}

pub data Event : Type 0 where
  wrote : Bool → Event
  called : Call → Event

abbrev pub carried_out : {R : Type 0} → Option R → Bool
carried_out none = false
carried_out (some r) = true

-- A log of a run, whatever is answered and whatever fails.
abbrev pub Logs : {A : Type 0} → Proc A → List Event → Type 0
Logs (done a) l = l ≡ []
Logs (look k) l = (r : Option Db) × Logs (k r) l
Logs (write {R} w k) l =
    (r : Option R) × (m : List Event) × (l ≡ Event.wrote (carried_out r) ∷ m) × Logs (k r) m
Logs (call c k) l = (r : Reply c) × (m : List Event) × (l ≡ Event.called c ∷ m) × Logs (k r) m
Logs (notify n p) l = Logs p l
