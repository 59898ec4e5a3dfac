-- ===== src/Reconcile/Recover/Settling.antt =====
-- Where a recovery (`recover` of crates/barista-node-agent/src/ops.rs) leaves the journal.
use Prim.Native.String.{String}
use mathlib.Core.Path.{subst}
use text.Mathlib.TextPositions.{eq_refl}
use barista_sh.Base.{
  ltb, Bool, true, false, Bool-cases, List, [], ◌∷◌, All, if◌then◌else◌, ◌≡◌, ◌⊎◌, inl, inr, refl,
  sym, arith,
}
use barista_sh.Base.Int.{ℤ}
use barista_sh.Contract.{InstanceState}
use barista_sh.Machine.Instance.{is_transitional}
use barista_sh.Machine.Operation.{op_is_in_flight}
use barista_sh.Journal.Table.{count, update, All-weaken}
use barista_sh.Journal.Rows.{OperationRow, InstanceRow, of_instance}
use barista_sh.Journal.Operations.{release_claims, restart, has_inflight_op}
use barista_sh.Journal.Submit.{active_on}
use barista_sh.Journal.Restart.{restart_settles}
use barista_sh.Journal.Instances.{set_instance_state, entered}
use barista_sh.Journal.Snapshots.{Db}
use barista_sh.Node.Runtime.{Answer, ok, err}
use barista_sh.Node.Process.{Notice, done, notify, bind}
use barista_sh.Node.Sequential.{Runs, Leads, led, carry_over, weaker}
use barista_sh.Node.Executor.Steps.{on_journal}
use barista_sh.Reconcile.Vanished.{contains}
use barista_sh.Reconcile.Recover.{
  in_flight, transitional_instances, report_each, resolved_to, resolve_stopping,
  resolve_checkpointing, reaped_to, resolve, resolve_each, remove_unknown, sweep_orphans,
  resolve_and_sweep, recover, live_ids,
}

abbrev Owned : String → List InstanceRow → Type 0
Owned id [] = ⊥
Owned id (r ∷ rs) = (r.instance_id ≡ id) ⊎ Owned id rs

-- The rows whose state is transitional are of these instances.
abbrev Within : List InstanceRow → Db → Type 0
Within stuck d =
    All (λ r. (is_transitional r.state ≡ false) ⊎ Owned r.instance_id stuck) d.journal.instances

abbrev Resolves : String → Db → Bool → Db → Type 0
Resolves id d b e =
    (b ≡ true)
    × (s : InstanceState) × (now : ℤ) × (is_transitional s ≡ false)
    × (e ≡ on_journal (set_instance_state id s now) d)

resolved_to-Leads :
    (id : String) (s : InstanceState) (now : ℤ) (d : Db)
    → is_transitional s ≡ false
    → Leads (Resolves id d) d (resolved_to id s now)
unfolding resolved_to
resolved_to-Leads id s now d h = (refl, s, now, h, refl)

resolve-Leads :
    (id : String) (s : InstanceState) (now : ℤ) (d : Db)
    → Leads (Resolves id d) d (resolve id s now)
unfolding resolve resolve_stopping resolve_checkpointing reaped_to resolved_to is_transitional
resolve-Leads id InstanceState.stopping now d = stopping
  where
    stopping :
        (a : Answer (Unit {0}))
        → Leads (Resolves id d) d (elim a [
          | ok _ ↦ resolved_to id InstanceState.stopped now
          | err _ ↦
              notify
                (Notice.degradation id "" "crash recovery could not stop the sandbox")
                (resolved_to id InstanceState.failed now)
        ])
    stopping (ok u) = (refl, InstanceState.stopped, now, refl, refl)
    stopping (err e) = (refl, InstanceState.failed, now, refl, refl)
resolve-Leads id InstanceState.checkpointing now d = (refl, InstanceState.running, now, refl, refl)
resolve-Leads id InstanceState.destroying now d =
    λ a. (refl, InstanceState.destroyed, now, refl, refl)
resolve-Leads id _ now d = λ a. (refl, InstanceState.failed, now, refl, refl)

entered_row :
    (r : InstanceRow) (s : InstanceState) (now : ℤ) (stuck : List InstanceRow) (x : InstanceRow)
    → is_transitional s ≡ false
    → (is_transitional x.state ≡ false) ⊎ Owned x.instance_id (r ∷ stuck)
    → (is_transitional (if of_instance r.instance_id x then entered s now x else x).state ≡ false)
      ⊎ Owned (if of_instance r.instance_id x then entered s now x else x).instance_id stuck
entered_row r s now stuck x h g = elim (Bool-cases (of_instance r.instance_id x)) [
  | inl t ↦ rw t (inl h)
  | inr f ↦ rw f (other f g)
]
  where
    other :
        of_instance r.instance_id x ≡ false
        → (is_transitional x.state ≡ false) ⊎ Owned x.instance_id (r ∷ stuck)
        → (is_transitional x.state ≡ false) ⊎ Owned x.instance_id stuck
    other f (inl k) = inl k
    other f (inr (inl e)) = absurd (ground (arith, f, e, eq_refl r.instance_id))
    other f (inr (inr o)) = inr o

resolved_rows :
    (r : InstanceRow) (s : InstanceState) (now : ℤ) (stuck rows : List InstanceRow)
    → is_transitional s ≡ false
    → All (λ x. (is_transitional x.state ≡ false) ⊎ Owned x.instance_id (r ∷ stuck)) rows
    → All
        (λ x. (is_transitional x.state ≡ false) ⊎ Owned x.instance_id stuck)
        (update (of_instance r.instance_id) (entered s now) rows)
resolved_rows r s now stuck [] h g = tt
resolved_rows r s now stuck (x ∷ rows) h (g, gs) =
    (entered_row r s now stuck x h g, resolved_rows r s now stuck rows h gs)

abbrev Calm : Db → Bool → Db → Type 0
Calm d b e =
    (b ≡ true)
    × (e.journal.operations ≡ d.journal.operations)
    × All (λ r. is_transitional r.state ≡ false) e.journal.instances

calm_rows :
    (rows : List InstanceRow)
    → All (λ x. (is_transitional x.state ≡ false) ⊎ Owned x.instance_id []) rows
    → All (λ r. is_transitional r.state ≡ false) rows
calm_rows [] h = tt
calm_rows (x ∷ rows) (inl e, hs) = (e, calm_rows rows hs)
calm_rows (x ∷ rows) (inr o, hs) = absurd o

resolve_each-Leads :
    (now : ℤ) (stuck : List InstanceRow) (d : Db)
    → Within stuck d
    → Leads (Calm d) d (resolve_each now stuck)
unfolding resolve_each set_instance_state
resolve_each-Leads now [] d h = (refl, refl, calm_rows d.journal.instances h)
resolve_each-Leads now (r ∷ rs) d h =
    carry_over (Resolves r.instance_id d) (Calm d) d (resolve r.instance_id r.state now) _
      (resolve-Leads r.instance_id r.state now d)
      (λ b m g. next b m (λ e. resolve_each-Leads now rs e) g)
  where
    next :
        (b : Bool) (m : Db)
        → ((e : Db) → Within rs e → Leads (Calm e) e (resolve_each now rs))
        → Resolves r.instance_id d b m
        → Leads (Calm d) m (if b then resolve_each now rs else done false)
    next b m ih (ends, s, t, stable, left) =
        subst (λ c. Leads (Calm d) m (if c then resolve_each now rs else done false)) (sym ends)
          (subst (λ n. Leads (Calm d) n (resolve_each now rs)) (sym left)
            (ih (on_journal (set_instance_state r.instance_id s t) d)
              (resolved_rows r s t rs d.journal.instances stable h)))

remove_unknown-Leads :
    (known ids : List String) (d : Db) → Leads (λ u e. e ≡ d) d (remove_unknown known ids)
unfolding remove_unknown
remove_unknown-Leads known [] d = refl
remove_unknown-Leads known (id ∷ ids) d = elim (Bool-cases (contains id known)) [
  | inl t ↦ rw t (remove_unknown-Leads known ids d)
  | inr f ↦ rw f (λ a. remove_unknown-Leads known ids d)
]

sweep_orphans-Leads : (d : Db) → Leads (λ b e. (b ≡ true) × (e ≡ d)) d sweep_orphans
unfolding sweep_orphans
sweep_orphans-Leads d = swept
  where
    swept :
        (a : Answer (List String))
        → Leads
            (λ b e. (b ≡ true) × (e ≡ d))
            d
            (elim a [
              | err _ ↦
                  notify
                    (Notice.degradation "" ""
                      "the zero-orphan sweep could not enumerate the substrate")
                    (done true)
              | ok there ↦
                  bind (remove_unknown (live_ids d.journal.instances) there) (λ u. done true)
            ])
    swept (err e) = (refl, refl)
    swept (ok there) =
        carry_over (λ u e. e ≡ d) (λ b e. (b ≡ true) × (e ≡ d)) d
          (remove_unknown (live_ids d.journal.instances) there) _
          (remove_unknown-Leads (live_ids d.journal.instances) there d) (λ u m g. (refl, g))

rest-Owned :
    (b : Bool) (r : InstanceRow) (stuck : List InstanceRow) (id : String)
    → Owned id stuck
    → Owned id (if b then r ∷ stuck else stuck)
rest-Owned true r stuck id o = inr o
rest-Owned false r stuck id o = o

first-Owned :
    (b : Bool) (r : InstanceRow) (stuck : List InstanceRow)
    → is_transitional r.state ≡ b
    → (is_transitional r.state ≡ false) ⊎ Owned r.instance_id (if b then r ∷ stuck else stuck)
first-Owned true r stuck e = inr (inl refl)
first-Owned false r stuck e = inl e

stuck_rows :
    (rows : List InstanceRow)
    → All
        (λ r. (is_transitional r.state ≡ false) ⊎ Owned r.instance_id (transitional_instances rows))
        rows
stuck_rows [] = tt
stuck_rows (r ∷ rows) = (
  first-Owned (is_transitional r.state) r (transitional_instances rows) refl,
  All-weaken _ _ rows
      (λ x h. elim h [
        | inl e ↦ inl e
        | inr o ↦
            inr
              (rest-Owned (is_transitional r.state) r (transitional_instances rows) x.instance_id o)
      ])
      (stuck_rows rows),
)

report_each-Leads : (ops : List OperationRow) (d : Db) → Leads (λ u e. e ≡ d) d (report_each ops)
unfolding report_each
report_each-Leads [] d = refl
report_each-Leads (o ∷ os) d = report_each-Leads os d

-- the database once `Db::open` has released the claims of executors that died
abbrev pub opened : Db → Db
opened d = on_journal release_claims d

-- The recovery came to its end; nothing is in flight, no executor blocks an instance, and every
-- instance is in a state that it can stay in.
abbrev pub Recovered : Bool → Db → Type 0
Recovered b e =
    (b ≡ true)
    × (count (λ r. op_is_in_flight r.op.state) e.journal.operations ≡ 0)
    × ((id : String) → has_inflight_op id e.journal ≡ false)
    × All (λ r. is_transitional r.state ≡ false) e.journal.instances

restart-Recovered :
    (message : String) (now : ℤ) (d e : Db)
    → e.journal.operations ≡ (restart message now d.journal).operations
    → All (λ r. is_transitional r.state ≡ false) e.journal.instances
    → Recovered true e
unfolding has_inflight_op
restart-Recovered message now d e ops calm =
    let (settled, free) = restart_settles message now d.journal in
    (
      refl,
      subst (λ l. count (λ r. op_is_in_flight r.op.state) l ≡ 0) (sym ops) settled,
      subst (λ l. (id : String) → ltb 0 (count (active_on id) l) ≡ false) (sym ops) free,
      calm,
    )

swept-Leads : (m : Db) → Recovered true m → Leads Recovered m sweep_orphans
swept-Leads m h =
    weaker (λ b e. (b ≡ true) × (e ≡ m)) Recovered m sweep_orphans
      (λ b e (t, same).
        subst (λ c. Recovered c e) (sym t) (subst (λ n. Recovered true n) (sym same) h))
      (sweep_orphans-Leads m)

resolved-Leads :
    (message : String) (now : ℤ) (d : Db)
    → Leads Recovered (on_journal (restart message now) d) (resolve_and_sweep now)
unfolding resolve_and_sweep
resolved-Leads message now d =
    let m = on_journal (restart message now) d in
    carry_over (Calm m) Recovered m
      (resolve_each now (transitional_instances (restart message now d.journal).instances)) _
      (resolve_each-Leads now _ m (stuck_rows m.journal.instances))
      (λ b e (t, ops, calm).
        subst (λ c. Leads Recovered e (if c then sweep_orphans else done false)) (sym t)
          (swept-Leads e (restart-Recovered message now d e ops calm)))

recover-Leads :
    (message : String) (now : ℤ) (d : Db) → Leads Recovered (opened d) (recover message now)
unfolding recover restart
recover-Leads message now d =
    let m = on_journal (restart message now) d in
    carry_over (λ u e. e ≡ m) Recovered m
      (report_each (in_flight (release_claims d.journal).operations)) _
      (report_each-Leads (in_flight (release_claims d.journal).operations) m)
      (λ u e g.
        subst (λ n. Leads Recovered n (resolve_and_sweep now)) (sym g)
          (resolved-Leads message now d))

-- Whatever the runtime answers, a recovery that runs alone, with its reads and writes carried out,
-- comes to its end, and then no operation is in flight, no executor blocks an instance, and no
-- instance is left in a transitional state.
pub recover_settles :
    (message : String) (now : ℤ) (d : Db) (b : Bool) (e : Db)
    → Runs (opened d) (recover message now) b e
    → Recovered b e
recover_settles message now d b e r =
    led Recovered (opened d) (recover message now) b e (recover-Leads message now d) r
