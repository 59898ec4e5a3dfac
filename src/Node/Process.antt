-- ===== src/Node/Process.antt =====
-- An `async` function of the node agent as the effects that it has, in order: reads and writes of
-- the node's database, calls of the runtime, and what it announces. Between two of them other tasks
-- run. A read or a write may fail, and then it has changed nothing.
use Prim.Native.String.{String}
use barista_sh.Base.{ℕ, Bool, Option, none, some}
use barista_sh.Contract.{InstanceState}
use barista_sh.Journal.Rows.{StopReason}
use barista_sh.Journal.Snapshots.{Db}
use barista_sh.Node.Runtime.{Call, Reply}

-- What goes to the event stream (crates/barista-node-agent/src/events.rs), by the method called,
-- and the stamp of the run state on the instance's lease.
pub data Notice : Type 0 where
  state_changed : String → String → InstanceState → Option StopReason → Notice
  op_progress : String → String → String → Notice
  degradation : String → String → String → Notice
  ready_changed : String → Bool → Notice
  lineage_recorded : String → String → Notice
  epoch_rotated : String → String → ℕ → Notice
  restored : String → String → Notice
  wake_fired : String → String → Notice
  idle_fired : String → String → Notice
  stamp_lease_state : String → Notice

pub data Proc (A : Type 0) : Type 1 where
  done : A → Proc A
  look : (Option Db → Proc A) → Proc A
  write : {R : Type 0} → (Db → Option R × Db) → (Option R → Proc A) → Proc A
  call : (c : Call) → (Reply c → Proc A) → Proc A
  notify : Notice → Proc A → Proc A

abbrev pub bind : {A B : Type 0} → Proc A → (A → Proc B) → Proc B
bind (done a) f = f a
bind (look k) f = look (λ r. bind (k r) f)
bind (write w k) f = write w (λ r. bind (k r) f)
bind (call c k) f = call c (λ r. bind (k r) f)
bind (notify n p) f = notify n (bind p f)

infixl 5 ◌>>=◌ ◌>>◌
abbrev pub ◌>>=◌ : {A B : Type 0} → Proc A → (A → Proc B) → Proc B
m >>= f = bind m f

abbrev pub ◌>>◌ : {A B : Type 0} → Proc A → Proc B → Proc B
m >> k = bind m (λ _. k)

abbrev pub pure : {A : Type 0} → A → Proc A
pure a = done a

abbrev pub tell : Notice → Proc (Unit {0})
tell n = notify n (done tt)

abbrev pub ask : (c : Call) → Proc (Reply c)
ask c = call c (λ r. done r)

-- A read, with `none` where it failed.
abbrev pub query : {A : Type 0} → (Db → A) → Proc (Option A)
query f = look (λ r. elim r [ none ↦ done none | some d ↦ done (some (f d)) ])

-- A write that is not refused, with whether it was carried out.
abbrev pub update_db : (Db → Db) → Proc (Option (Unit {0}))
update_db f = write (λ d. (some tt, f d)) (λ r. done r)

abbrev pub transact : {R : Type 0} → (Db → Option R × Db) → Proc (Option R)
transact f = write f (λ r. done r)
