-- ===== src/Reconcile/Deadlines.antt =====
-- What crates/barista-node-agent/src/reconcile.rs does to one instance at a tick: `enforce_ttl`,
-- `fire_due_wake`, `probe_readiness` and `enforce_idle`; and `note_activity`.
pub mod Once
use Prim.Native.String.{String, ◌++◌}
use barista_sh.Base.{
  ℕ, suc, ◌%◌, ◌==◌, Bool, true, false, not, ◌||◌, List, [], ◌∷◌, Option, none, some, is_none,
  if◌then◌else◌,
}
use barista_sh.Base.Int.{ℤ, pos, negsuc, leb_ℤ, eqb_ℤ}
use barista_sh.Contract.{InstanceState, ErrorReason}
use barista_sh.Machine.Instance.{is_terminal}
use barista_sh.Journal.Rows.{InstanceRow, Claim, ttl_expiry, wake}
use barista_sh.Journal.Deadline.{take_deadline}
use barista_sh.Journal.Instances.{set_instance_ready, set_ttl_deadline}
use barista_sh.Journal.Snapshots.{Db, get_instance}
use barista_sh.Policy.Plan.{OpKind}
use barista_sh.Policy.Gate.{TtlAction, Resolved, resolve_ttl_action, ttl_deadline_ms}
use barista_sh.Node.Runtime.{Health, Call}
use barista_sh.Node.Payload.{OpPayload, digits}
use barista_sh.Node.Process.{Notice, Proc, ◌>>=◌, ◌>>◌, pure, tell, ask, query, update_db, transact}
use barista_sh.Node.Submit.{Config, Submitting, SubmitResult, flatten, submit_claiming}
use barista_sh.Node.Executor.Steps.{on_journal}

-- What a tick draws and reads: an operation's id, a guest's token, and the clock.
pub record Draws : Type 0 where
  pub op_id : String
  pub fresh_token : String
  pub seen_at : ℤ
  pub created : ℤ
  pub claim_now : ℤ
  pub now : ℤ

-- how `format!` writes an `i64`, which has nineteen digits at most
unfoldable pub int_text : ℤ → String
int_text (pos n) = digits 19 n
int_text (negsuc n) = "-" ++ digits 19 (suc n)

-- `TtlAction::try_from(…).unwrap_or_default()`
unfoldable pub ttl_action_of : ℤ → TtlAction
ttl_action_of z =
    if eqb_ℤ z (pos 1)
    then TtlAction.pause
    else if eqb_ℤ z (pos 2)
    then TtlAction.stop
    else if eqb_ℤ z (pos 3)
    then TtlAction.destroy
    else TtlAction.unspecified

abbrev pub action_of : Resolved → OpKind × OpPayload
action_of (Resolved.stop degraded) = (OpKind.stop, OpPayload.stop 5)
action_of Resolved.destroy = (OpKind.destroy, OpPayload.destroy true)
action_of Resolved.pause = (OpKind.pause, OpPayload.pause false)

abbrev pub downgrade : String → Resolved → List Notice
downgrade id (Resolved.stop true) =
    Notice.degradation id "" "the runtime has no memory_snapshot capability" ∷ []
downgrade id _ = []

abbrev pub submission_of :
    Draws → String → String → OpKind × OpPayload → Option Claim → List Notice → Submitting
submission_of x id key (kind, payload) claim announce = record {
  kind = kind;
  instance_id = id;
  idempotency_key = key;
  payload = payload;
  claim = claim;
  announce = announce;
  op_id = x.op_id;
  fresh_token = x.fresh_token;
  created = x.created;
  claim_now = x.claim_now;
  now = x.now;
}

-- a refusal is reported, unless an operation in flight only defers the action
abbrev pub is_deferral : ErrorReason → Bool
is_deferral ErrorReason.concurrent_operation = true
is_deferral _ = false

abbrev pub report_refusal : String → SubmitResult → Proc (Unit {0})
report_refusal id (SubmitResult.refused reason) =
    if is_deferral reason
    then pure tt
    else tell (
        Notice.degradation id ""
          "the action could not be submitted; it is retried on the next tick")
report_refusal id _ = pure tt

-- `enforce_ttl`
unfoldable pub enforce_ttl : Config → Draws → InstanceRow → Proc (Unit {0})
enforce_ttl cfg x row = elim row.ttl_deadline_ms [
  | none ↦ pure tt
  | some deadline ↦ if not (leb_ℤ deadline x.seen_at) then pure tt else (do
    let resolution =
        resolve_ttl_action (ttl_action_of row.spec.ttl_action) cfg.capabilities.memory_snapshot
    result ← submit_claiming cfg (
        submission_of x row.instance_id ("ttl:" ++ row.instance_id ++ ":" ++ int_text deadline)
          (action_of resolution) (some (ttl_expiry deadline))
          (downgrade row.instance_id resolution))
    report_refusal row.instance_id result)
]

-- What a due alarm asks for.
pub data Wake : Type 0 where
  submits : OpKind × OpPayload → Wake
  consumes : Wake
  deferred : Wake

unfoldable pub wake_action : InstanceState → Wake
wake_action InstanceState.paused = Wake.submits (OpKind.resume, OpPayload.resume none false)
wake_action InstanceState.stopped = Wake.submits (OpKind.start, OpPayload.start)
wake_action InstanceState.running = Wake.consumes
wake_action s = if is_terminal s then Wake.consumes else Wake.deferred

-- `wake_key`
unfoldable pub wake_key : String → ℤ → String
wake_key id at = "wake-" ++ id ++ "-" ++ int_text at

-- `Db::claim_wake` on the node's database
abbrev pub claim_wake_db : String → ℤ → ℤ → Db → Option Bool × Db
claim_wake_db id at now d =
    let (taken, j) = take_deadline id (wake at) now d.journal in
    (some taken, record d { journal = j })

abbrev pub wake_submission : Draws → InstanceRow → ℤ → OpKind × OpPayload → Submitting
wake_submission x row at action =
    submission_of x row.instance_id (wake_key row.instance_id at) action (some (wake at))
      (Notice.wake_fired row.instance_id x.op_id ∷ [])

abbrev pub wake_taken : String → Option Bool → Proc (Unit {0})
wake_taken id (some true) = tell (Notice.wake_fired id "")
wake_taken id (some false) = pure tt
wake_taken id none = pure tt

-- the alarm of an instance that cannot or need not be woken is taken, and nothing is submitted
unfoldable pub consume_wake : Draws → InstanceRow → ℤ → Proc (Unit {0})
consume_wake x row at = do
  taken ← transact (claim_wake_db row.instance_id at x.claim_now)
  wake_taken row.instance_id taken

unfoldable pub submit_wake : Config → Draws → InstanceRow → ℤ → OpKind × OpPayload → Proc (Unit {0})
submit_wake cfg x row at action = do
  result ← submit_claiming cfg (wake_submission x row at action)
  report_refusal row.instance_id result

unfoldable pub due_wake : Config → Draws → InstanceRow → ℤ → Proc (Unit {0})
unfolding consume_wake submit_wake
due_wake cfg x row at = elim (wake_action row.state) [
  | Wake.deferred ↦ pure tt
  | Wake.consumes ↦ consume_wake x row at
  | Wake.submits action ↦ submit_wake cfg x row at action
]

-- `fire_due_wake`
unfoldable pub fire_due_wake : Config → Draws → InstanceRow → Proc (Unit {0})
unfolding due_wake
fire_due_wake cfg x row = elim row.wake_at_ms [
  | none ↦ pure tt
  | some at ↦ if not (leb_ℤ at x.seen_at) then pure tt else due_wake cfg x row at
]

-- `enforce_idle`, with guards (a) and (b)
abbrev pub or_zero : Option ℤ → ℤ
or_zero none = pos 0
or_zero (some z) = z

abbrev pub idle_notices : String → String → Resolved → List Notice
idle_notices id op_id (Resolved.stop true) =
    Notice.degradation id "" "the runtime has no memory_snapshot capability"
    ∷ Notice.idle_fired id op_id
    ∷ []
idle_notices id op_id _ = Notice.idle_fired id op_id ∷ []

unfoldable pub declared_idle : InstanceRow → Health → Option (ℤ × ℤ)
declared_idle row health = elim row.spec.idle_action [
  | none ↦ none
  | some action ↦ elim health.idle_declared_ms [
    | none ↦ none
    | some declared ↦
        if leb_ℤ declared (or_zero row.run_epoch_ms)
          || leb_ℤ declared (or_zero health.last_user_activity_ms)
        then none
        else some (action, declared)
  ]
]

unfoldable pub enforce_idle : Config → Draws → InstanceRow → Health → Proc (Unit {0})
unfolding declared_idle
enforce_idle cfg x row health = elim (declared_idle row health) [
  | none ↦ pure tt
  | some (action, declared) ↦ do
    let resolution = resolve_ttl_action (ttl_action_of action) cfg.capabilities.memory_snapshot
    submit_claiming cfg (
        submission_of x row.instance_id ("idle:" ++ row.instance_id ++ ":" ++ int_text declared)
          (action_of resolution) none (idle_notices row.instance_id x.op_id resolution))
    pure tt
]

-- `should_probe`
unfoldable pub should_probe : InstanceRow → ℕ → Bool
should_probe row tick = not row.ready || not (is_none row.spec.idle_action) || (tick % 10 == 0)

abbrev pub set_ready_db : String → Bool → ℤ → Db → Option Bool × Db
set_ready_db id ready now d =
    let (changed, j) = set_instance_ready id ready now d.journal in
    (some changed, record d { journal = j })

-- `probe_readiness`
unfoldable pub probe_readiness : Config → Draws → InstanceRow → Proc (Unit {0})
unfolding enforce_idle
probe_readiness cfg x row = do
  there ← ask (Call.connect row.instance_id)
  (if there
      then (do
        health ← ask (Call.probe row.instance_id)
        elim health [
          | none ↦ pure tt
          | some h ↦ do
            changed ← transact (set_ready_db row.instance_id h.ready x.seen_at)
            elim changed [
              | some true ↦ tell (Notice.ready_changed row.instance_id h.ready)
              | _ ↦ pure tt
            ]
            enforce_idle cfg x row h
        ])
      else pure tt)

-- `note_activity`
unfoldable pub note_activity : String → ℤ → Proc (Unit {0})
note_activity id now = do
  row ← query (get_instance id)
  elim (flatten row) [
    | none ↦ pure tt
    | some r ↦ if r.spec.ttl_seconds == 0 then pure tt else (do
      update_db
          (on_journal (set_ttl_deadline id (some (ttl_deadline_ms r.spec.ttl_seconds now)) now))
      pure tt)
  ]
