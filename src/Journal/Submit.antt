-- ===== src/Journal/Submit.antt =====
-- `Db::submit_atomically` of crates/barista-node-agent/src/db.rs: the checks and writes of one
-- submission, in the order of the code. What the code takes from its caller is an argument: the
-- plan of the transition, the mint of the channel's identity, and the clock's two readings.
pub mod Accepted
pub mod Refused
pub mod Verdict
pub mod Promised
pub mod Delivering
pub mod Delivered
use Prim.Native.String.{String}
use text.Mathlib.Text.{◌==◌ as str_eq}
use barista_sh.Base.{
  ℕ, ◌+◌, Bool, true, false, ◌||◌, List, [], ◌∷◌, Option, none, some, ltb, if◌then◌else◌, ◌&&◌,
}
use barista_sh.Base.Int.{ℤ}
use barista_sh.Contract.{InstanceState, OperationState, ErrorReason}
use barista_sh.Contract.Spec.{InstanceSpec}
use barista_sh.Journal.Table.{find, count, update, insert}
use barista_sh.Journal.Rows.{
  ForkMode, unspecified, OperationRow, StoredOperation, Identity, Lineage, no_identity, no_lineage,
  InstanceRow, Journal, Claim, Submission, of_instance, of_op, of_key,
}
use barista_sh.Journal.Tx.{
  Outcome, proceeds, rolls_back, faults, Tx, pure, roll_back, fault, current, become, ◌>>=◌, ◌>>◌,
}
use barista_sh.Journal.Deadline.{take_deadline}

-- What a caller submits.
pub record Request : Type 0 where
  pub op : OperationRow
  pub idempotency_key : String
  pub transitional : InstanceState
  pub create_spec : Option InstanceSpec
  pub runtime : String
  pub guest_token : String
  pub mint_identity : String → Option (Option Identity)  -- `none` where minting fails
  pub claim : Option Claim
  pub lineage : Option Lineage
  pub plan : InstanceState → Option InstanceState

-- The executor still owns the operation, and it is about this instance.
abbrev pub active_on : String → StoredOperation → Bool
active_on id r = str_eq r.op.instance_id id && r.executor_active

-- Replay wins over everything.
unfoldable pub replay_check : String → Tx (Unit {0})
replay_check key j = elim (find (of_key key) j.operations) [
  | none ↦ proceeds tt j
  | some hit ↦ elim (find (of_op hit.op.op_id) j.operations) [
    | some original ↦ rolls_back (Submission.replay original.op)
    | none ↦ rolls_back Submission.conflict
  ]
]

unfoldable pub conflict_check : String → Tx (Unit {0})
conflict_check id j =
    if ltb 0 (count (active_on id) j.operations)
    then rolls_back Submission.conflict
    else proceeds tt j

-- The state that the instance is recorded in while the operation runs.
unfoldable pub planned_state : Request → Tx InstanceState
planned_state q j = elim q.create_spec [
  | some _ ↦ elim (find (of_instance q.op.instance_id) j.instances) [
    | some _ ↦ rolls_back Submission.rejected
    | none ↦ proceeds q.transitional j
  ]
  | none ↦ elim (find (of_instance q.op.instance_id) j.instances) [
    | none ↦ rolls_back Submission.rejected
    | some r ↦ elim (q.plan r.state) [
      | some recorded ↦ proceeds recorded j
      | none ↦ rolls_back Submission.rejected
    ]
  ]
]

unfoldable pub consume_claim : String → Option Claim → ℤ → Tx (Unit {0})
consume_claim id none now j = proceeds tt j
consume_claim id (some claim) now j =
    let (taken, left) = take_deadline id claim now j in
    if taken then proceeds tt left else rolls_back Submission.claim_superseded

-- The row that the INSERT writes: the columns that it names, and the defaults of the others.
abbrev pub queued_row : OperationRow → String → StoredOperation
queued_row op key = record {
  op = record op {
    error_reason = ErrorReason.unspecified;
    error_message = "";
    degraded = "";
    finished_at_ms = none;
    froze_workload = false;
    actual_fork_mode = ForkMode.unspecified;
  };
  idempotency_key = key;
  executor_active = true;
}

-- `op_id` is the primary key, and `idempotency_key` is unique.
unfoldable pub insert_operation : OperationRow → String → Tx (Unit {0})
insert_operation op key j =
    elim (insert (λ r. of_op op.op_id r || of_key key r) (queued_row op key) j.operations) [
      | none ↦ faults
      | some rows ↦ proceeds tt (record j { operations = rows })
    ]

abbrev pub or_else : {A : Type 0} → Option A → A → A
or_else none d = d
or_else (some a) d = a

-- The row of a created instance.
abbrev pub created_row : Request → InstanceSpec → Option Identity → ℤ → InstanceRow
created_row q spec identity now = record {
  instance_id = spec.instance_id;
  spec = spec;
  state = InstanceState.creating;
  ready = false;
  runtime = q.runtime;
  created_at_ms = now;
  updated_at_ms = now;
  ttl_deadline_ms = none;
  latest_snapshot_id = "";
  guest_token = q.guest_token;
  identity = or_else identity no_identity;
  wake_at_ms = none;
  stop_requested = none;
  stop_exit_code = none;
  stop_detail = none;
  run_epoch_ms = none;
  lineage = or_else q.lineage no_lineage;
  execution_epoch = 0;
}

abbrev pub moved : InstanceState → ℤ → InstanceRow → InstanceRow
moved state now r = record r { state = state; updated_at_ms = now }

-- The write of the instance: an INSERT for a create, else an UPDATE.
unfoldable pub write_instance : Request → InstanceState → ℤ → Tx (Unit {0})
write_instance q recorded now j = elim q.create_spec [
  | some spec ↦ elim (q.mint_identity spec.instance_id) [
    | none ↦ faults
    | some identity ↦
        elim (insert (of_instance spec.instance_id) (created_row q spec identity now) j.instances) [
          | none ↦ faults
          | some rows ↦ proceeds tt (record j { instances = rows })
        ]
  ]
  | none ↦ proceeds tt (record j {
    instances = update (of_instance q.op.instance_id) (moved recorded now) j.instances;
  })
]

unfoldable pub submission : Request → ℤ → ℤ → Tx InstanceState
submission q claim_now now = do
  replay_check q.idempotency_key
  conflict_check q.op.instance_id
  recorded ← planned_state q
  consume_claim q.op.instance_id q.claim claim_now
  insert_operation q.op q.idempotency_key
  write_instance q recorded now
  pure recorded

-- The transaction's end: a commit, a rollback with its verdict, or an error, whose transaction is
-- dropped.
abbrev pub settle : Outcome InstanceState → Journal → Option Submission × Journal
settle (proceeds recorded k) j = (some (Submission.journaled recorded), k)
settle (rolls_back verdict) j = (some verdict, j)
settle faults j = (none, j)

-- `Db::submit_atomically`; `none` is the `Err` result
unfoldable pub submit_atomically : Request → ℤ → ℤ → Journal → Option Submission × Journal
submit_atomically q claim_now now j = settle (submission q claim_now now j) j
