-- ===== src/Node/Submitted.antt =====
-- What a submission (`submit_claiming` of crates/barista-node-agent/src/ops.rs) writes and calls.
use Prim.Native.String.{String}
use text.Mathlib.Text.{◌==◌ as str_eq}
use barista_sh.Base.{Bool, true, false, Bool-cases, List, [], ◌∷◌, Option, none, some, inl, inr}
use barista_sh.Base.Int.{ℤ}
use barista_sh.Contract.{InstanceState, instance_state_eq}
use barista_sh.Journal.Rows.{OperationRow, Submission}
use barista_sh.Journal.Submit.{Request}
use barista_sh.Journal.Snapshots.{Db}
use barista_sh.Policy.Plan.{OpKind, states}
use barista_sh.Node.Runtime.{Call}
use barista_sh.Node.Payload.{OpPayload}
use barista_sh.Node.Process.{Notice}
use barista_sh.Node.Keeps.{Safe, seq, when, optional, reading}
use barista_sh.Node.Submit.{
  Config, Submitting, find_snapshot, wanted_snapshot, resolve_restore, guest_token, refused_resume,
  refused_name, same_work, replayed_create, replay, announced, verdict, submit_db, journal_it,
  checked, submit_claiming,
}

module _ (W : (R : Type 0) → (Db → Option R × Db) → Type 0) (C : Call → Type 0) where
  find_snapshot-Safe : (o : Option String) → Safe W C (find_snapshot o)
  unfolding find_snapshot
  find_snapshot-Safe none = tt
  find_snapshot-Safe (some id) = reading W C (λ _. Unit) _ _ (λ o. tt)

  wanted_snapshot-Safe : (id : String) (o : Option String) → Safe W C (wanted_snapshot id o)
  unfolding wanted_snapshot
  wanted_snapshot-Safe id (some sid) = find_snapshot-Safe (some sid)
  wanted_snapshot-Safe id none = reading W C (λ _. Unit) _ _ (λ o. find_snapshot-Safe _)

  pub resolve_restore-Safe :
      (cfg : Config) (id : String) (o : Option String) (memory : Bool)
      → Safe W C (resolve_restore cfg id o memory)
  unfolding resolve_restore
  resolve_restore-Safe cfg id o memory =
      seq W C (λ _. Unit) (wanted_snapshot id o) _ (wanted_snapshot-Safe id o)
        (λ s. reading W C (λ _. Unit) _ _ (λ r. tt))

  pub refused_resume-Safe :
      (cfg : Config) (id : String) (p : OpPayload) → Safe W C (refused_resume cfg id p)
  unfolding refused_resume
  refused_resume-Safe cfg id (OpPayload.resume sid true) =
      seq W C (λ _. Unit) (resolve_restore cfg id sid true) _ (resolve_restore-Safe cfg id sid true)
        (λ found. tt)
  refused_resume-Safe cfg id (OpPayload.resume sid false) = tt
  refused_resume-Safe cfg id _ = tt

  pub refused_name-Safe : (id : String) (p : OpPayload) → Safe W C (refused_name id p)
  unfolding refused_name
  refused_name-Safe id (OpPayload.create_snapshot (some name)) =
      reading W C (λ _. Unit) _ _ (λ o. tt)
  refused_name-Safe id _ = tt

  replayed_create-Safe :
      (cfg : Config) (id : String) (p : OpPayload) (o : OperationRow)
      → Safe W C (replayed_create cfg id p o)
  unfolding replayed_create
  replayed_create-Safe cfg id (OpPayload.create spec) o = reading W C (λ _. Unit) _ _ (λ row. tt)
  replayed_create-Safe cfg id _ o = tt

  announced-Safe :
      (ns : List Notice) (id : String) (op : OperationRow) (s r : InstanceState)
      → Safe W C (announced ns id op s r)
  unfolding announced
  announced-Safe [] id op s r = elim (Bool-cases (instance_state_eq r s)) [
    | inl e ↦ rw e tt
    | inr e ↦ rw e tt
  ]
  announced-Safe (n ∷ ns) id op s r = announced-Safe ns id op s r

  replay-Safe :
      (cfg : Config) (id : String) (p : OpPayload) (op original : OperationRow)
      → Safe W C (replay cfg id p op original)
  unfolding replay
  replay-Safe cfg id p op original =
      when W C (λ _. Unit) (same_work original op) (replayed_create cfg id p original) _
        (λ t. replayed_create-Safe cfg id p original) (λ t. tt)

  pub verdict-Safe :
      (cfg : Config) (kind : OpKind) (id : String) (p : OpPayload) (n : List Notice)
      (op : OperationRow) (o : Option Submission)
      → Safe W C (verdict cfg kind id p n op o)
  unfolding verdict
  verdict-Safe cfg kind id p n op none = tt
  verdict-Safe cfg kind id p n op (some (Submission.replay original)) =
      replay-Safe cfg id p op original
  verdict-Safe cfg kind id p n op (some Submission.conflict) = tt
  verdict-Safe cfg kind id p n op (some Submission.rejected) = tt
  verdict-Safe cfg kind id p n op (some Submission.claim_superseded) = tt
  verdict-Safe cfg kind id p n op (some (Submission.journaled recorded)) =
      announced-Safe n id op (states kind).0 recorded

  pub guest_token-Safe :
      C Call.entropy → (p : OpPayload) (fresh : String) → Safe W C (guest_token p fresh)
  unfolding guest_token
  guest_token-Safe entropy (OpPayload.create _) fresh = (entropy, λ b. tt)
  guest_token-Safe entropy (OpPayload.restore_capsule _) fresh = (entropy, λ b. tt)
  guest_token-Safe entropy (OpPayload.fork f) fresh = tt
  guest_token-Safe entropy _ fresh = tt

  module _ (entropy : C Call.entropy)
      (submits : (q : Request) (claim_now now : ℤ) → W Submission (submit_db q claim_now now)) where
    journal_it-Safe :
        (cfg : Config) (s : Submitting) (token : String) → Safe W C (journal_it cfg s token)
    unfolding journal_it
    journal_it-Safe cfg s token = (
      submits _ s.claim_now s.now,
      λ o. verdict-Safe cfg s.kind s.instance_id s.payload s.announce _ o,
    )

    checked-Safe : (cfg : Config) (s : Submitting) (token : String) → Safe W C (checked cfg s token)
    unfolding checked
    checked-Safe cfg s token =
        seq W C (λ _. Unit) (refused_resume cfg s.instance_id s.payload) _
          (refused_resume-Safe cfg s.instance_id s.payload)
          (λ refusal.
            optional W C (λ _. Unit) _ _ refusal
              (seq W C (λ _. Unit) (refused_name s.instance_id s.payload) _
                (refused_name-Safe s.instance_id s.payload)
                (λ clash.
                  optional W C (λ _. Unit) _ _ clash (journal_it-Safe cfg s token) (λ reason. tt)))
              (λ reason. tt))

    -- A submission keeps what the draw of entropy and the journaling transaction keep.
    pub submit-Safe : (cfg : Config) (s : Submitting) → Safe W C (submit_claiming cfg s)
    unfolding submit_claiming
    submit-Safe cfg s =
        when W C (λ _. Unit) (str_eq s.idempotency_key "") _ _ (λ t. tt)
          (λ t.
            seq W C (λ _. Unit) (guest_token s.payload s.fresh_token) _
              (guest_token-Safe entropy s.payload s.fresh_token)
              (λ token. optional W C (λ _. Unit) _ _ token tt (λ t. checked-Safe cfg s t)))
