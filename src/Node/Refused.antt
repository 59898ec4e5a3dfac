-- ===== src/Node/Refused.antt =====
-- What a submission that is not accepted (`submit_claiming` of crates/barista-node-agent/src/ops.rs)
-- leaves of the database.
use Prim.Native.String.{String}
use mathlib.Core.Path.{subst}
use text.Mathlib.Text.{◌==◌ as str_eq}
use barista_sh.Base.{
  Bool-cases, Option, none, some, List, [], ◌∷◌, ◌≡◌, refl, sym, ◌∙◌, ap, inl, inr,
}
use barista_sh.Contract.{InstanceState, ErrorReason, instance_state_eq}
use barista_sh.Journal.Rows.{OperationRow, Journal, Submission}
use barista_sh.Journal.Submit.{submit_atomically}
use barista_sh.Journal.Submit.Verdict.{Verdict, submit-Verdict}
use barista_sh.Journal.Snapshots.{Db}
use barista_sh.Policy.Plan.{states}
use barista_sh.Node.Process.{Notice, Proc, done, bind}
use barista_sh.Node.Keeps.{Safe}
use barista_sh.Node.Sequential.{Runs, Leads, led, carry_over, weaker, quiet}
use barista_sh.Node.Submit.{
  Config, Submitting, SubmitResult, submitted, superseded, refused, op_of, request, guest_token,
  refused_resume, refused_name, announced, verdict, journal_it, checked, submit_claiming,
}
use barista_sh.Node.Submitted.{
  guest_token-Safe, refused_resume-Safe, refused_name-Safe, verdict-Safe,
}

-- Only a submission that spawns an executor changes the database.
abbrev pub Unless : Db → SubmitResult → Db → Type 0
Unless d (submitted op (some recorded)) e = Unit
Unless d _ e = e ≡ d

unchanged : (d : Db) (r : SubmitResult) (e : Db) → e ≡ d → Unless d r e
unchanged d (submitted op (some recorded)) e h = tt
unchanged d (submitted op none) e h = h
unchanged d superseded e h = h
unchanged d (refused reason) e h = h

announced-Unless :
    (d m : Db) (ns : List Notice) (id : String) (op : OperationRow) (s r : InstanceState)
    → Leads (Unless d) m (announced ns id op s r)
unfolding announced
announced-Unless d m [] id op s r = elim (Bool-cases (instance_state_eq r s)) [
  | inl e ↦ rw e tt
  | inr e ↦ rw e tt
]
announced-Unless d m (n ∷ ns) id op s r = announced-Unless d m ns id op s r

module _ (cfg : Config) (s : Submitting) (d : Db) where
  -- the part has left the database as it was
  going_on :
      {A : Type 0} (p : Proc A) (f : A → Proc SubmitResult)
      → Safe (λ R w. ⊥) (λ c. Unit) p
      → ((a : A) → Leads (Unless d) d (f a))
      → Leads (Unless d) d (bind p f)
  going_on p f safe h =
      carry_over (λ a e. e ≡ d) (Unless d) d p f (quiet (λ c. Unit) d p safe)
        (λ a m e. subst (λ n. Leads (Unless d) n (f a)) (sym e) (h a))

  journal_it-Unless : (token : String) → Leads (Unless d) d (journal_it cfg s token)
  unfolding journal_it
  journal_it-Unless token =
      let q = request cfg s.kind s.payload (op_of s) s.idempotency_key token s.claim in
      by_answer (submit_atomically q s.claim_now s.now d.journal).1
        (submit_atomically q s.claim_now s.now d.journal).0
        (submit-Verdict q s.claim_now s.now d.journal)
    where
      same :
          (k : Journal) (o : Option Submission)
          → k ≡ d.journal
          → Leads
              (Unless d)
              (record d { journal = k })
              (verdict cfg s.kind s.instance_id s.payload s.announce (op_of s) o)
      same k o e =
          weaker (λ r n. n ≡ record d { journal = k }) (Unless d) (record d { journal = k })
            (verdict cfg s.kind s.instance_id s.payload s.announce (op_of s) o)
            (λ r n h. unchanged d r n (h ∙ ap (λ j. record d { journal = j }) e))
            (quiet (λ c. ⊥) (record d { journal = k })
              (verdict cfg s.kind s.instance_id s.payload s.announce (op_of s) o)
              (verdict-Safe (λ R w. ⊥) (λ c. ⊥) cfg s.kind s.instance_id s.payload s.announce
                (op_of s) o))

      by_answer :
          (k : Journal) (o : Option Submission)
          → Verdict
              (request cfg s.kind s.payload (op_of s) s.idempotency_key token s.claim)
              s.claim_now
              s.now
              d.journal
              o
              k
          → Leads
              (Unless d)
              (record d { journal = k })
              (verdict cfg s.kind s.instance_id s.payload s.announce (op_of s) o)
      by_answer k none v = same k none v
      by_answer k (some (Submission.replay o)) v = same k (some (Submission.replay o)) (v.0)
      by_answer k (some Submission.conflict) v = same k (some Submission.conflict) (v.0)
      by_answer k (some Submission.rejected) v = same k (some Submission.rejected) (v.0)
      by_answer k (some Submission.claim_superseded) v =
          same k (some Submission.claim_superseded) (v.0)
      by_answer k (some (Submission.journaled recorded)) v =
          announced-Unless d (record d { journal = k }) s.announce s.instance_id (op_of s)
            (states s.kind).0 recorded

  checked-Unless : (token : String) → Leads (Unless d) d (checked cfg s token)
  unfolding checked
  checked-Unless token =
      going_on (refused_resume cfg s.instance_id s.payload) _
        (refused_resume-Safe (λ R w. ⊥) (λ c. Unit) cfg s.instance_id s.payload) by_refusal
    where
      by_clash :
          (o : Option ErrorReason)
          → Leads (Unless d) d (elim o [
            | some reason ↦ done (SubmitResult.refused reason)
            | none ↦ journal_it cfg s token
          ])
      by_clash none = journal_it-Unless token
      by_clash (some reason) = refl

      by_refusal :
          (o : Option ErrorReason)
          → Leads (Unless d) d (elim o [
            | some reason ↦ done (SubmitResult.refused reason)
            | none ↦ bind (refused_name s.instance_id s.payload) (λ clash. elim clash [
              | some reason ↦ done (SubmitResult.refused reason)
              | none ↦ journal_it cfg s token
            ])
          ])
      by_refusal none =
          going_on (refused_name s.instance_id s.payload) _
            (refused_name-Safe (λ R w. ⊥) (λ c. Unit) s.instance_id s.payload) by_clash
      by_refusal (some reason) = refl

  submit-Unless : Leads (Unless d) d (submit_claiming cfg s)
  unfolding submit_claiming
  submit-Unless = elim (Bool-cases (str_eq s.idempotency_key "")) [
    | inl e ↦ rw e refl
    | inr e ↦ rw e (
        going_on (guest_token s.payload s.fresh_token) _
          (guest_token-Safe (λ R w. ⊥) (λ c. Unit) tt s.payload s.fresh_token) by_token)
  ]
    where
      by_token :
          (o : Option String)
          → Leads (Unless d) d (elim o [
            | none ↦ done (SubmitResult.refused ErrorReason.unspecified)
            | some t ↦ checked cfg s t
          ])
      by_token none = refl
      by_token (some t) = checked-Unless t

-- A submission that is refused, that is superseded, or that repeats an operation already journaled
-- leaves the database as it was, for whatever reason and at whatever point it is refused.
pub refusal_changes_nothing :
    (cfg : Config) (s : Submitting) (d : Db) (r : SubmitResult) (e : Db)
    → Runs d (submit_claiming cfg s) r e
    → Unless d r e
refusal_changes_nothing cfg s d r e h =
    led (Unless d) d (submit_claiming cfg s) r e (submit-Unless cfg s d) h
