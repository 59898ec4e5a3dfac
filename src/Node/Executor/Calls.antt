-- ===== src/Node/Executor/Calls.antt =====
-- What an executor (`execute` of crates/barista-node-agent/src/ops.rs) writes and calls: it keeps
-- whatever the writes and calls of its verb and of its end keep.
use Prim.Native.String.{String}
use barista_sh.Base.{
  ℕ, Bool, true, false, Bool-cases, Option, none, some, [], ◌++◌, if◌then◌else◌, ◌≡◌, inl, inr,
  refl,
}
use barista_sh.Contract.{InstanceState, instance_state_eq}
use barista_sh.Journal.Rows.{Finalized}
use barista_sh.Journal.Operations.{Work, succeeded, failed, Finish, set_op_step}
use barista_sh.Journal.Snapshots.{Db}
use barista_sh.Policy.Plan.{touches_instance_state}
use barista_sh.Node.Runtime.{Call}
use barista_sh.Node.Process.{Notice, done, notify, bind}
use barista_sh.Node.Keeps.{Safe, seq, when, optional, reading}
use barista_sh.Node.Executor.{execute, want_epoch, bind_epoch, is_boot, Epoch, issue_db, bind_db}
use barista_sh.Node.Executor.Steps.{Execution, target, Done, degrade, on_journal}
use barista_sh.Node.Executor.Verbs.{run_verb}
use barista_sh.Node.Executor.Finalize.{
  deadline, reason, clean_up, makes_sandbox, is_unavailable, close, committed, rotated, finalize,
  fail_closed, failure_committed, failure_finish, settled_state, finish_of, finish_db,
}
use barista_sh.Node.Executor.Conduct.{Permits}
use barista_sh.Node.Executor.Conduct.Verb.{verb-Safe}

-- The two calls that the end of an execution may make, for what its verb ended with.
abbrev pub Closing : Execution → Work → Call → Type 0
Closing x work (Call.stop_status i) = (i ≡ target x) × (touches_instance_state x.kind ≡ true)
Closing x (failed why message) (Call.remove_orphan i) =
    (i ≡ target x) × (makes_sandbox x.kind ≡ true)
Closing x _ _ = ⊥

module _ (W : (R : Type 0) → (Db → Option R × Db) → Type 0) (C : Call → Type 0)
    (x : Execution) where
  pub deadline-Safe : (s : InstanceState) → Safe W C (deadline x s)
  unfolding deadline
  deadline-Safe s =
      when W C (λ _. Unit) (instance_state_eq s InstanceState.running) _ _
        (λ _. reading W C (λ _. Unit) _ _ (λ o. tt)) (λ _. tt)

  pub reason-Safe :
      (work : Work)
      → ((c : Call) → Closing x work c → C c)
      → (s : InstanceState) → Safe W C (reason x s)
  unfolding reason
  reason-Safe work closes s =
      when W C (λ _. Unit) (instance_state_eq s InstanceState.stopped) _ _
        (λ _.
          when W C (λ _. Unit) (touches_instance_state x.kind) _ _
            (λ t. (closes (Call.stop_status (target x)) (refl, t), λ a. tt))
            (λ _. reading W C (λ _. Unit) _ _ (λ o. tt)))
        (λ _. tt)

  unavailable-Safe :
      (b : Bool) → Safe W C (if b then degrade x "the substrate is not answering" else done [])
  unavailable-Safe true = tt
  unavailable-Safe false = tt

  pub clean_up-Safe :
      (work : Work) → ((c : Call) → Closing x work c → C c) → Safe W C (clean_up x work)
  unfolding clean_up
  clean_up-Safe succeeded closes = tt
  clean_up-Safe (failed why message) closes = elim (Bool-cases (makes_sandbox x.kind)) [
    | inl m ↦ rw m (
      closes (Call.remove_orphan (target x)) (refl, m),
      λ a. unavailable-Safe (is_unavailable why),
    )
    | inr m ↦ rw m (unavailable-Safe (is_unavailable why))
  ]

  rotated-Safe : (work : Work) (epoch : Option ℕ) → Safe W C (rotated x work epoch)
  unfolding rotated
  rotated-Safe succeeded none = tt
  rotated-Safe succeeded (some n) = tt
  rotated-Safe (failed why message) epoch = tt

  pub committed-Safe :
      (q : Finish) (work : Work) (epoch : Option ℕ) (o : Option Finalized)
      → Safe W C (committed x q work epoch o)
  unfolding committed
  committed-Safe q work epoch none = tt
  committed-Safe q work epoch (some f) = elim (Bool-cases f.readiness_changed) [
    | inl r ↦ rw r (rotated-Safe work epoch)
    | inr r ↦ rw r (rotated-Safe work epoch)
  ]

  pub failure_committed-Safe : (o : Option Finalized) → Safe W C (failure_committed x o)
  unfolding failure_committed
  failure_committed-Safe none = tt
  failure_committed-Safe (some f) = elim (Bool-cases f.readiness_changed) [
    | inl r ↦ rw r tt
    | inr r ↦ rw r tt
  ]

  -- The writes and calls of the end of an execution.
  pub record Ends : Type 0 where
    pub steps :
        (name : String) → W (Unit {0}) (λ d. (some tt, on_journal (set_op_step x.op.op_id name) d))
    pub finishes :
        (q : Finish)
        → q.op_id ≡ x.op.op_id
        → q.instance_id ≡ target x
        → W Finalized (finish_db q x.finish_now)

  -- The writes that give an execution its epoch.
  pub record Binds : Type 0 where
    pub issues : W ℕ issue_db
    pub binds : (epoch : ℕ) → W (Unit {0}) (bind_db (target x) epoch x.bind_now)

  module _ (ends : Ends) where
    pub finalize-Safe :
        (epoch : Option ℕ) (result : Done)
        → ((c : Call) → Closing x (result.0) c → C c)
        → Safe W C (finalize x epoch result)
    unfolding finalize close
    finalize-Safe epoch result closes = (
      ends.steps "finalize",
      λ _.
          seq W C (λ _. Unit) (deadline x (settled_state x (result.0))) _
            (deadline-Safe (settled_state x (result.0)))
            (λ ttl.
              seq W C (λ _. Unit) (reason x (settled_state x (result.0))) _
                (reason-Safe (result.0) closes (settled_state x (result.0)))
                (λ why.
                  seq W C (λ _. Unit) (clean_up x (result.0)) _ (clean_up-Safe (result.0) closes)
                    (λ late. (
                      ends.finishes _ refl refl,
                      λ o.
                          committed-Safe
                            (finish_of x (settled_state x (result.0)) ttl why (result.1 ++ late)
                              (result.0))
                            (result.0) epoch o,
                    )))),
    )

    pub fail_closed-Safe : Safe W C (fail_closed x)
    unfolding fail_closed
    fail_closed-Safe = (
      ends.steps "finalize",
      λ _. (ends.finishes (failure_finish x) refl refl, λ o. failure_committed-Safe o),
    )

  module _ (may : Permits W C x) (ends : Ends) where
    pub run-Safe :
        ((work : Work) (c : Call) → Closing x work c → C c)
        → (epoch : Option ℕ)
        → Safe W C (bind (run_verb x epoch) (λ result. finalize x epoch result))
    run-Safe closes epoch =
        seq W C (λ _. Unit) (run_verb x epoch) _ (verb-Safe W C x may epoch)
          (λ result. finalize-Safe ends epoch result (closes (result.0)))

    bind_epoch-Safe : Binds → Safe W C (bind_epoch x)
    unfolding bind_epoch
    bind_epoch-Safe given = (
      given.issues,
      λ o. optional W C (λ _. Unit) _ _ o tt (λ epoch. (given.binds epoch, λ there. tt)),
    )

    want_epoch-Safe : Binds → Safe W C (want_epoch x)
    unfolding want_epoch
    want_epoch-Safe given =
        when W C (λ _. Unit) (is_boot x.kind) _ _ (λ _. bind_epoch-Safe given) (λ _. tt)

    -- An execution keeps what its writes and calls keep, whatever is answered and whatever fails.
    pub execute-Safe :
        ((work : Work) (c : Call) → Closing x work c → C c) → Binds → Safe W C (execute x)
    unfolding execute
    execute-Safe closes given =
        seq W C (λ _. Unit) (want_epoch x) _ (want_epoch-Safe given) (λ epoch. by_epoch epoch)
      where
        by_epoch :
            (epoch : Epoch)
            → Safe W C (
                notify (Notice.stamp_lease_state (target x)) (elim epoch [
                  | Epoch.unbound ↦ fail_closed x
                  | Epoch.not_wanted ↦ bind (run_verb x none) (λ result. finalize x none result)
                  | Epoch.bound n ↦
                      bind (run_verb x (some n)) (λ result. finalize x (some n) result)
                ]))
        by_epoch Epoch.unbound = fail_closed-Safe ends
        by_epoch Epoch.not_wanted = run-Safe closes none
        by_epoch (Epoch.bound n) = run-Safe closes (some n)
