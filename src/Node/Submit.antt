-- ===== src/Node/Submit.antt =====
-- `resolve_restore`, `submit_claiming` and `submit` of crates/barista-node-agent/src/ops.rs.
use Prim.Native.String.{String}
use text.Mathlib.Text.{◌==◌ as str_eq}
use barista_sh.Base.{
  Bool, true, false, not, ◌&&◌, List, [], ◌∷◌, Option, none, some, is_none, if◌then◌else◌,
}
use barista_sh.Base.Int.{ℤ}
use barista_sh.Contract.{InstanceState, OperationState, ErrorReason, instance_state_eq}
use barista_sh.Contract.Spec.{InstanceSpec, RuntimeCapabilities}
use barista_sh.Journal.Rows.{
  ForkMode, OperationRow, Identity, Lineage, InstanceRow, Claim, Submission,
}
use barista_sh.Journal.Submit.{Request, submit_atomically}
use barista_sh.Journal.Snapshots.{Db, SnapshotRow, get_instance, get_snapshot, snapshot_named}
use barista_sh.Policy.Plan.{OpKind, as_str, states, plan_transition}
use barista_sh.Policy.Restore.{Restore, decide}
use barista_sh.Node.Runtime.{Call}
use barista_sh.Node.Payload.{OpPayload, payload_descriptor}
use barista_sh.Node.Process.{Notice, Proc, ◌>>=◌, ◌>>◌, pure, tell, ask, query, transact}

-- What the agent knows of itself and of its runtime, and the code of other crates that it calls:
-- the hash of a template (`sha2`), the comparison of two specs (`prost`), and the mint of an
-- identity, `none` where it fails.
pub record Config : Type 0 where
  pub runtime_name : String
  pub runtime_version : String
  pub cpu_class : String
  pub capabilities : RuntimeCapabilities
  pub channel_is_network_reachable : Bool
  pub enumerates_sandboxes : Bool
  pub template_hash : InstanceSpec → String
  pub same_spec : InstanceSpec → InstanceSpec → Bool
  pub mint : String → Option Identity

-- `.ok().flatten()` of a read that may find nothing
abbrev pub flatten : {A : Type 0} → Option (Option A) → Option A
flatten none = none
flatten (some o) = o

-- the snapshot that a resume asks for: by its id, or the instance's latest
abbrev pub latest_of : Option InstanceRow → Option String
latest_of none = none
latest_of (some r) = if str_eq r.latest_snapshot_id "" then none else some r.latest_snapshot_id

unfoldable pub find_snapshot : Option String → Proc (Option SnapshotRow)
find_snapshot none = pure none
find_snapshot (some id) = do found ← query (get_snapshot id); pure (flatten found)

unfoldable pub wanted_snapshot : String → Option String → Proc (Option SnapshotRow)
unfolding find_snapshot
wanted_snapshot id (some sid) = find_snapshot (some sid)
wanted_snapshot id none = do row ← query (get_instance id); find_snapshot (latest_of (flatten row))

unfoldable pub restore_decision : Config → Option SnapshotRow → Option InstanceRow → Bool → Restore
restore_decision cfg snapshot none memory = Restore.refuse ErrorReason.unspecified
restore_decision cfg snapshot (some row) memory =
    decide snapshot (cfg.template_hash row.spec) cfg.cpu_class cfg.runtime_version memory

-- `resolve_restore`
unfoldable pub resolve_restore :
    Config → String → Option String → Bool → Proc (Option InstanceRow × Restore)
unfolding wanted_snapshot restore_decision
resolve_restore cfg id snapshot_id memory = do
  snapshot ← wanted_snapshot id snapshot_id
  found ← query (get_instance id)
  pure (flatten found, restore_decision cfg snapshot (flatten found) memory)

-- the result of a submission; the state is there where an executor was spawned
pub data SubmitResult : Type 0 where
  submitted : OperationRow → Option InstanceState → SubmitResult
  superseded : SubmitResult
  refused : ErrorReason → SubmitResult

abbrev pub create_spec : OpPayload → Option InstanceSpec
create_spec (OpPayload.create spec) = some spec
create_spec (OpPayload.fork f) = some f.spec
create_spec (OpPayload.restore_capsule r) = some r.spec
create_spec _ = none

abbrev pub lineage_of : OpPayload → Option Lineage
lineage_of (OpPayload.fork f) = some f.lineage
lineage_of (OpPayload.restore_capsule r) = some r.lineage
lineage_of _ = none

-- `new_guest_token` where the payload wants a fresh one: `none` where the host has no entropy
unfoldable pub guest_token : OpPayload → String → Proc (Option String)
guest_token (OpPayload.create _) fresh = do
  drawn ← ask Call.entropy
  pure (if drawn then some fresh else none)
guest_token (OpPayload.restore_capsule _) fresh = do
  drawn ← ask Call.entropy
  pure (if drawn then some fresh else none)
guest_token (OpPayload.fork f) fresh = pure (some f.source_guest_token)
guest_token _ fresh = pure (some "")

abbrev pub minted : Config → Option Identity → String → Option (Option Identity)
minted cfg (some identity) id = some (some identity)
minted cfg none id =
    if cfg.channel_is_network_reachable
    then elim (cfg.mint id) [ none ↦ none | some identity ↦ some (some identity) ]
    else some none

-- the closure `mint_identity`
abbrev pub mint_identity : Config → OpPayload → String → Option (Option Identity)
mint_identity cfg (OpPayload.fork f) id = minted cfg f.source_identity id
mint_identity cfg _ id = minted cfg none id

-- a resume that rules out a cold boot is refused before anything is journaled
unfoldable pub refused_resume : Config → String → OpPayload → Proc (Option ErrorReason)
unfolding resolve_restore
refused_resume cfg id (OpPayload.resume sid true) = do
  found ← resolve_restore cfg id sid true
  pure (elim (found.0) [
    | none ↦ none
    | some _ ↦ elim (found.1) [ Restore.refuse reason ↦ some reason | _ ↦ none ]
  ])
refused_resume cfg id _ = pure none

-- and so is a snapshot's name that the instance already uses
unfoldable pub refused_name : String → OpPayload → Proc (Option ErrorReason)
refused_name id (OpPayload.create_snapshot (some name)) = do
  existing ← query (snapshot_named id name)
  pure (if is_none (flatten existing) then none else some ErrorReason.snapshot_name_conflict)
refused_name id _ = pure none

abbrev pub new_op : OpKind → String → OpPayload → String → ℤ → OperationRow
new_op kind id payload op_id created = record {
  op_id = op_id;
  kind = as_str kind;
  instance_id = id;
  payload = payload_descriptor payload;
  state = OperationState.queued;
  current_step = "";
  error_reason = ErrorReason.unspecified;
  error_message = "";
  degraded = "";
  created_at_ms = created;
  finished_at_ms = none;
  froze_workload = false;
  actual_fork_mode = ForkMode.unspecified;
}

abbrev pub request :
    Config → OpKind → OpPayload → OperationRow → String → String → Option Claim → Request
request cfg kind payload op key token claim = record {
  op = op;
  idempotency_key = key;
  transitional = (states kind).0;
  create_spec = create_spec payload;
  runtime = cfg.runtime_name;
  guest_token = token;
  mint_identity = mint_identity cfg payload;
  claim = claim;
  lineage = lineage_of payload;
  plan = plan_transition kind (states kind).0;
}

-- the same work: a replay repeats the kind, the instance and the parameters
abbrev pub same_work : OperationRow → OperationRow → Bool
same_work o p =
    str_eq o.kind p.kind && str_eq o.instance_id p.instance_id && str_eq o.payload p.payload

abbrev pub spec_differs : Config → InstanceSpec → Option InstanceRow → Bool
spec_differs cfg spec none = false
spec_differs cfg spec (some row) = not (cfg.same_spec row.spec spec)

-- a replayed create repeats the spec too
unfoldable pub replayed_create : Config → String → OpPayload → OperationRow → Proc SubmitResult
replayed_create cfg id (OpPayload.create spec) original = do
  row ← query (get_instance id)
  pure (elim row [
    | none ↦ SubmitResult.refused ErrorReason.unspecified
    | some found ↦
        if spec_differs cfg spec found
        then SubmitResult.refused ErrorReason.invalid_spec
        else SubmitResult.submitted original none
  ])
replayed_create cfg id _ original = pure (SubmitResult.submitted original none)

unfoldable pub replay :
    Config → String → OpPayload → OperationRow → OperationRow → Proc SubmitResult
unfolding replayed_create
replay cfg id payload op original =
    if same_work original op
    then replayed_create cfg id payload original
    else pure (SubmitResult.refused ErrorReason.invalid_spec)

-- what is announced once the operation is committed
unfoldable pub announced :
    List Notice → String → OperationRow → InstanceState → InstanceState → Proc SubmitResult
announced [] id op transitional recorded = do
  (if instance_state_eq recorded transitional
      then tell (Notice.state_changed id op.op_id transitional none)
      else pure tt)
  pure (SubmitResult.submitted op (some recorded))
announced (n ∷ ns) id op transitional recorded = do tell n; announced ns id op transitional recorded

-- what each outcome of the transaction means to the caller
unfoldable pub verdict :
    Config
    → OpKind
    → String
    → OpPayload
    → List Notice
    → OperationRow
    → Option Submission
    → Proc SubmitResult
unfolding replay announced
verdict cfg kind id payload announce op none = pure (SubmitResult.refused ErrorReason.unspecified)
verdict cfg kind id payload announce op (some (Submission.replay original)) =
    replay cfg id payload op original
verdict cfg kind id payload announce op (some Submission.conflict) =
    pure (SubmitResult.refused ErrorReason.concurrent_operation)
verdict cfg kind id payload announce op (some Submission.rejected) =
    pure (SubmitResult.refused ErrorReason.invalid_spec)
verdict cfg kind id payload announce op (some Submission.claim_superseded) =
    pure SubmitResult.superseded
verdict cfg kind id payload announce op (some (Submission.journaled recorded)) =
    announced announce id op (states kind).0 recorded

-- `Db::submit_atomically` on the node's database
abbrev pub submit_db : Request → ℤ → ℤ → Db → Option Submission × Db
submit_db q claim_now now d =
    let (answer, j) = submit_atomically q claim_now now d.journal in
    (answer, record d { journal = j })

-- What a caller hands to `submit_claiming`, with what it draws: the operation's id, a guest's token
-- and the clock's readings. `announce` is what the caller's closure emits.
pub record Submitting : Type 0 where
  pub kind : OpKind
  pub instance_id : String
  pub idempotency_key : String
  pub payload : OpPayload
  pub claim : Option Claim
  pub announce : List Notice
  pub op_id : String
  pub fresh_token : String
  pub created : ℤ
  pub claim_now : ℤ
  pub now : ℤ

abbrev pub op_of : Submitting → OperationRow
op_of s = new_op s.kind s.instance_id s.payload s.op_id s.created

unfoldable pub journal_it : Config → Submitting → String → Proc SubmitResult
unfolding verdict
journal_it cfg s token = do
  outcome ← transact (
      submit_db (request cfg s.kind s.payload (op_of s) s.idempotency_key token s.claim) s.claim_now
        s.now)
  verdict cfg s.kind s.instance_id s.payload s.announce (op_of s) outcome

unfoldable pub checked : Config → Submitting → String → Proc SubmitResult
unfolding refused_resume refused_name journal_it
checked cfg s token = do
  refusal ← refused_resume cfg s.instance_id s.payload
  let rest = (do
    clash ← refused_name s.instance_id s.payload
    elim clash [ some reason ↦ pure (SubmitResult.refused reason) | none ↦ journal_it cfg s token ])
  elim refusal [ some reason ↦ pure (SubmitResult.refused reason) | none ↦ rest ]

-- `submit_claiming`
unfoldable pub submit_claiming : Config → Submitting → Proc SubmitResult
unfolding guest_token checked
submit_claiming cfg s =
    if str_eq s.idempotency_key ""
    then pure (SubmitResult.refused ErrorReason.invalid_spec)
    else (do
      token ← guest_token s.payload s.fresh_token
      elim token [
        | none ↦ pure (SubmitResult.refused ErrorReason.unspecified)
        | some t ↦ checked cfg s t
      ])
