-- ===== src/Node/Executor/Conduct/Shared.antt =====
-- The parts that the verbs of `execute` (crates/barista-node-agent/src/ops.rs) share, and the
-- guest's hooks and duties.
use Prim.Native.String.{String}
use mathlib.Core.Path.{subst}
use text.Mathlib.Text.{◌==◌ as str_eq}
use barista_sh.Base.{
  ℕ, Bool, true, false, Bool-cases, Option, none, some, List, [], ◌∷◌, ◌++◌, if◌then◌else◌, ◌≡◌,
  inl, inr, refl, sym,
}
use barista_sh.Journal.Table.{find}
use barista_sh.Journal.Rows.{InstanceRow, of_instance}
use barista_sh.Journal.Snapshots.{Db}
use barista_sh.Contract.Spec.{HookOutcome}
use barista_sh.Node.Runtime.{Call, HookKind, DutyReport}
use barista_sh.Node.Payload.{OpPayload}
use barista_sh.Node.Process.{Notice, Proc, done, notify, bind}
use barista_sh.Node.Submit.{flatten}
use barista_sh.Node.Keeps.{Keeps, Safe, seq, when, optional, reading}
use barista_sh.Node.Executor.Steps.{Execution, target, Done, step, degrade, with_row}
use barista_sh.Node.Executor.Guest.{
  hook_answer, asked_hook, run_pre_snapshot_hook, post_hook_answer, post_restore, reported, seeded,
  restore_duties, wants_pre_snapshot, wants_post_restore,
}
use barista_sh.Node.Executor.Conduct.{ToGuest, ToRuntime, Permits}

module _ (W : (R : Type 0) → (Db → Option R × Db) → Type 0) (C : Call → Type 0) (x : Execution)
    (guest : (c : Call) → ToGuest (target x) c → C c) where
  hook_answer-Safe : (o : Option HookOutcome) → Safe W C (hook_answer x o)
  unfolding hook_answer
  hook_answer-Safe none = tt
  hook_answer-Safe (some h) = when W C (λ _. Unit) h.timed_out _ _ (λ _. tt) (λ _. tt)

  asked_hook-Safe : Safe W C (asked_hook x)
  unfolding asked_hook
  asked_hook-Safe = (
    guest (Call.connect (target x)) refl,
    λ r.
        when W C (λ _. Unit) r _ _
          (λ _. (guest (Call.run_hook (target x) HookKind.pre_snapshot) refl, hook_answer-Safe))
          (λ _. tt),
  )

  pub asking-Safe : Safe W C (run_pre_snapshot_hook x)
  unfolding run_pre_snapshot_hook
  asking-Safe =
      reading W C (λ _. Unit) _ _
        (λ o.
          optional W C (λ _. Unit) _ _ (flatten o) tt
            (λ r.
              when W C (λ _. Unit) (wants_pre_snapshot r.spec.hooks) _ _ (λ _. asked_hook-Safe)
                (λ _. tt)))

module _ (W : (R : Type 0) → (Db → Option R × Db) → Type 0) (C : Call → Type 0) (x : Execution)
    (may : Permits W C x) where
  pub guest : (c : Call) → ToGuest (target x) c → C c
  guest c g = may.calls c (inl g)

  pub runtime : {p : OpPayload} → x.payload ≡ p → (c : Call) → ToRuntime p (target x) c → C c
  runtime e c t = may.calls c (inr (subst (λ q. ToRuntime q (target x) c) (sym e) t))

  pub step-Safe : (name : String) → Safe W C (step x name)
  step-Safe name = (may.stepped name, λ r. tt)

  pub degrade-Safe : (message : String) → Safe W C (degrade x message)
  degrade-Safe message = tt

  pub stepped :
      {A : Type 0} (Q : A → Type 0) (name : String) (p : Proc A)
      → Keeps W C Q p
      → Keeps W C Q (bind (step x name) (λ _. p))
  stepped Q name p h = (may.stepped name, λ r. h)

  pub with_row-Safe :
      (f : InstanceRow → Proc Done) → ((r : InstanceRow) → Safe W C (f r)) → Safe W C (with_row x f)
  with_row-Safe f h none = tt
  with_row-Safe f h (some d) =
      optional W C (λ _. Unit) _ _ (find (of_instance (target x)) d.journal.instances) tt h

  pub hook-Safe : Safe W C (run_pre_snapshot_hook x)
  hook-Safe = asking-Safe W C x guest

  post_hook_answer-Safe :
      (rebound : Bool) (o : Option HookOutcome) → Safe W C (post_hook_answer x rebound o)
  unfolding post_hook_answer
  post_hook_answer-Safe rebound none = tt
  post_hook_answer-Safe rebound (some h) = when W C (λ _. Unit) h.timed_out _ _ (λ _. tt) (λ _. tt)

  post_restore-Safe : (r : InstanceRow) (rebound : Bool) → Safe W C (post_restore x r rebound)
  unfolding post_restore
  post_restore-Safe r rebound =
      when W C (λ _. Unit) (wants_post_restore r.spec.hooks) _ _
        (λ _. (
          may.stepped "hook.post_restore",
          λ r. (
            guest (Call.run_hook (target x) HookKind.post_restore) refl,
            post_hook_answer-Safe rebound,
          ),
        ))
        (λ _. tt)

  net-Safe :
      (r : InstanceRow) (rebound answers : Bool) (own : List String)
      → Safe W C (
          bind
            (if answers then done [] else degrade x "the guest stopped answering after its duties")
            (λ net.
              notify
                (Notice.restored (target x) x.op.op_id)
                (bind (post_restore x r rebound) (λ hook. done (own ++ (net ++ hook))))))
  net-Safe r rebound true own =
      seq W C (λ _. Unit) (post_restore x r rebound) _ (post_restore-Safe r rebound) (λ hook. tt)
  net-Safe r rebound false own =
      seq W C (λ _. Unit) (post_restore x r rebound) _ (post_restore-Safe r rebound) (λ hook. tt)

  reported-Safe : (r : InstanceRow) (o : Option DutyReport) → Safe W C (reported x r o)
  unfolding reported
  reported-Safe r none = tt
  reported-Safe r (some report) = elim (Bool-cases (str_eq report.degraded "")) [
    | inl e ↦ rw e (guest (Call.health (target x)) refl, λ a. net-Safe r report.grant_rebound a [])
    | inr e ↦ rw e (
      guest (Call.health (target x)) refl,
      λ a. net-Safe r report.grant_rebound a (report.degraded ∷ []),
    )
  ]

  seeded-Safe : (r : InstanceRow) (epoch : ℕ) → Safe W C (seeded x r epoch)
  unfolding seeded
  seeded-Safe r epoch = (
    guest Call.entropy tt,
    λ drawn.
        when W C (λ _. Unit) drawn _ _
          (λ _. (guest (Call.run_restore_duties (target x) epoch) refl, reported-Safe r)) (λ _. tt),
  )

  pub duties-Safe : (epoch : ℕ) → Safe W C (restore_duties x epoch)
  unfolding restore_duties
  duties-Safe epoch =
      reading W C (λ _. Unit) _ _
        (λ o.
          optional W C (λ _. Unit) _ _ (flatten o) tt
            (λ r. (
              may.stepped "restore.duties",
              λ _. (
                guest (Call.connect (target x)) refl,
                λ reached. when W C (λ _. Unit) reached _ _ (λ _. seeded-Safe r epoch) (λ _. tt),
              ),
            )))
