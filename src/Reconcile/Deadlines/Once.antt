-- ===== src/Reconcile/Deadlines/Once.antt =====
-- A due alarm (`fire_due_wake` of crates/barista-node-agent/src/reconcile.rs) acts once.
use Prim.Native.String.{String}
use mathlib.Core.Path.{subst}
use text.Mathlib.Text.{◌==◌ as str_eq}
use text.Mathlib.TextPositions.{eq_refl}
use barista_sh.Base.{
  Bool, true, false, not, Bool-cases, Option, none, some, List, [], ◌∷◌, if◌then◌else◌, ◌≡◌, ◌⊎◌,
  inl, inr, refl, sym, ◌∙◌, ap, arith,
}
use barista_sh.Base.Int.{ℤ, leb_ℤ}
use barista_sh.Contract.{InstanceState}
use barista_sh.Journal.Table.{find, count, update, update-none}
use barista_sh.Journal.Rows.{InstanceRow, Journal, StoredOperation, Submission, wake, of_key}
use barista_sh.Journal.Deadline.{take_deadline, claimable, cleared}
use barista_sh.Journal.Submit.{Request, submit_atomically, queued_row}
use barista_sh.Journal.Submit.Verdict.{Verdict, submit-Verdict}
use barista_sh.Journal.Snapshots.{Db}
use barista_sh.Policy.Plan.{OpKind}
use barista_sh.Node.Payload.{OpPayload}
use barista_sh.Node.Process.{done}
use barista_sh.Node.Sequential.{Runs, Leads, led, carry_over, weaker, quiet}
use barista_sh.Node.Submit.{
  Config, Submitting, SubmitResult, submitted, superseded, refused, submit_db, op_of, request,
  guest_token, checked, refused_resume, refused_name, journal_it, verdict, submit_claiming,
}
use barista_sh.Node.Submitted.{verdict-Safe}
use barista_sh.Machine.Instance.{is_terminal}
use barista_sh.Reconcile.Deadlines.{
  Draws, wake_key, wake_submission, claim_wake_db, consume_wake, submit_wake, due_wake,
  fire_due_wake, wake_action, Wake, report_refusal, is_deferral, wake_taken,
}

-- A submission under a key that the journal has changes nothing.
known_key :
    (q : Request) (t now : ℤ) (j : Journal) (r : StoredOperation)
    → find (of_key q.idempotency_key) j.operations ≡ some r
    → (submit_atomically q t now j).1 ≡ j
known_key q t now j r found =
    by_verdict (submit_atomically q t now j).0 (submit_atomically q t now j).1
      (submit-Verdict q t now j)
  where
    by_verdict : (o : Option Submission) (k : Journal) → Verdict q t now j o k → k ≡ j
    by_verdict none k v = v
    by_verdict (some (Submission.replay o)) k v = v.0
    by_verdict (some Submission.conflict) k v = v.0
    by_verdict (some Submission.rejected) k v = v.0
    by_verdict (some Submission.claim_superseded) k v = v.0
    by_verdict (some (Submission.journaled s)) k v = absurd (ground (arith, v.fresh_key, found))

-- Either a submission changes nothing, or the journal has its key afterwards.
kept_or_keyed :
    (q : Request) (t now : ℤ) (j : Journal)
    → ((submit_atomically q t now j).1 ≡ j)
      ⊎ (find (of_key q.idempotency_key) (submit_atomically q t now j).1.operations
          ≡ some (queued_row q.op q.idempotency_key))
kept_or_keyed q t now j =
    by_verdict (submit_atomically q t now j).0 (submit_atomically q t now j).1
      (submit-Verdict q t now j)
  where
    by_verdict :
        (o : Option Submission) (k : Journal)
        → Verdict q t now j o k
        → (k ≡ j)
          ⊎ (find (of_key q.idempotency_key) k.operations
              ≡ some (queued_row q.op q.idempotency_key))
    by_verdict none k v = inl v
    by_verdict (some (Submission.replay o)) k v = inl (v.0)
    by_verdict (some Submission.conflict) k v = inl (v.0)
    by_verdict (some Submission.rejected) k v = inl (v.0)
    by_verdict (some Submission.claim_superseded) k v = inl (v.0)
    by_verdict (some (Submission.journaled s)) k v =
        inr (ground (arith, v.queued, eq_refl q.idempotency_key))

-- the alarm that is due at one reading is due at every reading that an alarm of that time is
stays_unclaimed :
    (id : String) (at t u : ℤ) (r : InstanceRow)
    → leb_ℤ at t ≡ true
    → claimable id (wake at) t r ≡ false
    → claimable id (wake at) u r ≡ false
stays_unclaimed id at t u r h c = by_alarm r.wake_at_ms refl
  where
    by_alarm : (o : Option ℤ) → r.wake_at_ms ≡ o → claimable id (wake at) u r ≡ false
    by_alarm none e = ground (arith, e)
    by_alarm (some d) e = ground (arith, e, h, c)

cleared_unclaimed :
    (id : String) (at t u : ℤ) (r : InstanceRow)
    → claimable id (wake at) u (cleared (wake at) t r) ≡ false
cleared_unclaimed id at t u r = ground arith

all_taken :
    (id : String) (at t u : ℤ) (rows : List InstanceRow)
    → leb_ℤ at t ≡ true
    → count
        (claimable id (wake at) u)
        (update (claimable id (wake at) t) (cleared (wake at) t) rows)
      ≡ 0
all_taken id at t u [] h = refl
all_taken id at t u (r ∷ rows) h = elim (Bool-cases (claimable id (wake at) t r)) [
  | inl c ↦ rw c (rw (cleared_unclaimed id at t u r) (all_taken id at t u rows h))
  | inr c ↦ rw c (rw (stays_unclaimed id at t u r h c) (all_taken id at t u rows h))
]

undue_unclaimed :
    (id : String) (at t : ℤ) (r : InstanceRow)
    → leb_ℤ at t ≡ false
    → claimable id (wake at) t r ≡ false
undue_unclaimed id at t r h = by_alarm r.wake_at_ms refl
  where
    by_alarm : (o : Option ℤ) → r.wake_at_ms ≡ o → claimable id (wake at) t r ≡ false
    by_alarm none e = ground (arith, e)
    by_alarm (some d) e = ground (arith, e, h)

none_due :
    (id : String) (at t : ℤ) (rows : List InstanceRow)
    → leb_ℤ at t ≡ false
    → count (claimable id (wake at) t) rows ≡ 0
none_due id at t [] h = refl
none_due id at t (r ∷ rows) h = rw (undue_unclaimed id at t r h) (none_due id at t rows h)

-- The database once the alarm is taken, as far as it is due.
abbrev took : String → ℤ → ℤ → Db → Db
took id at t d = (claim_wake_db id at t d).1

took-took :
    (id : String) (at t u : ℤ) (d : Db)
    → (took id at t d ≡ d) ⊎ (took id at u (took id at t d) ≡ took id at t d)
unfolding take_deadline
took-took id at t u d = elim (Bool-cases (leb_ℤ at t)) [
  | inl h ↦ inr (
      ap (λ rows. record d { journal = record (d.journal) { instances = rows } })
        (update-none (claimable id (wake at) u) (cleared (wake at) u) _
          (all_taken id at t u d.journal.instances h)))
  | inr h ↦ inl (
      ap (λ rows. record d { journal = record (d.journal) { instances = rows } })
        (update-none (claimable id (wake at) t) (cleared (wake at) t) d.journal.instances
          (none_due id at t d.journal.instances h)))
]

-- What a due alarm does to the database.
abbrev Effects : Wake → Draws → String → ℤ → Db → Db → Type 0
Effects Wake.deferred x id at d e = e ≡ d
Effects Wake.consumes x id at d e = e ≡ took id at x.claim_now d
Effects (Wake.submits action) x id at d e =
    (e ≡ d)
    ⊎ ((q : Request) × (t : ℤ) × (now : ℤ) × (q.idempotency_key ≡ wake_key id at)
        × (e ≡ (submit_db q t now d).1))

submitted_once :
    (id : String) (at : ℤ) (q p : Request) (t now u then_ : ℤ) (d : Db)
    → q.idempotency_key ≡ wake_key id at
    → p.idempotency_key ≡ wake_key id at
    → ((submit_db q t now d).1 ≡ d)
      ⊎ ((submit_db p u then_ (submit_db q t now d).1).1 ≡ (submit_db q t now d).1)
submitted_once id at q p t now u then_ d k l = elim (kept_or_keyed q t now d.journal) [
  | inl same ↦ inl (ap (λ j. record d { journal = j }) same)
  | inr keyed ↦ inr (
      ap (λ j. record d { journal = j })
        (known_key p u then_ (submit_atomically q t now d.journal).1
          (queued_row q.op q.idempotency_key)
          (subst
            (λ key.
              find (of_key key) (submit_atomically q t now d.journal).1.operations
              ≡ some (queued_row q.op q.idempotency_key))
            (k ∙ sym l) keyed)))
]

once :
    (a : Wake) (x y : Draws) (id : String) (at : ℤ) (d e f : Db)
    → Effects a x id at d e
    → Effects a y id at e f
    → (e ≡ d) ⊎ (f ≡ e)
once Wake.deferred x y id at d e f g h = inl g
once Wake.consumes x y id at d e f g h = elim (took-took id at x.claim_now y.claim_now d) [
  | inl same ↦ inl (g ∙ same)
  | inr same ↦ inr (h ∙ ap (λ m. took id at y.claim_now m) g ∙ same ∙ sym g)
]
once (Wake.submits action) x y id at d e f (inl g) h = inl g
once (Wake.submits action) x y id at d e f (inr g) (inl h) = inr h
once (Wake.submits action) x y id at d e f (inr (q, t, now, k, g)) (inr (p, u, then_, l, h)) =
    elim (submitted_once id at q p t now u then_ d k l) [
      | inl same ↦ inl (g ∙ same)
      | inr same ↦ inr (h ∙ ap (λ m. (submit_db p u then_ m).1) g ∙ same ∙ sym g)
    ]

verdict-quiet :
    (cfg : Config) (s : Submitting) (o : Option Submission) (m : Db)
    → Leads (λ r e. e ≡ m) m (verdict cfg s.kind s.instance_id s.payload s.announce (op_of s) o)
verdict-quiet cfg s o m =
    quiet (λ c. ⊥) m (verdict cfg s.kind s.instance_id s.payload s.announce (op_of s) o)
      (verdict-Safe (λ R w. ⊥) (λ c. ⊥) cfg s.kind s.instance_id s.payload s.announce (op_of s) o)

-- The payload needs no token, and is checked against nothing before it is journaled.
abbrev Plain : Wake → Type 0
Plain (Wake.submits action) =
    (action.1 ≡ OpPayload.start) ⊎ (action.1 ≡ OpPayload.resume none false)
Plain _ = Unit

wake_action-Plain : (s : InstanceState) → Plain (wake_action s)
unfolding wake_action is_terminal
wake_action-Plain InstanceState.paused = inr refl
wake_action-Plain InstanceState.stopped = inl refl
wake_action-Plain InstanceState.running = tt
wake_action-Plain InstanceState.failed = tt
wake_action-Plain InstanceState.destroyed = tt
wake_action-Plain _ = tt

module _ (cfg : Config) (x : Draws) (row : InstanceRow) (at : ℤ) (d : Db) where
  abbrev Done : Wake → Db → Type 0
  Done a e = Effects a x row.instance_id at d e

  journal_it-effects :
      (kind : OpKind) (p : OpPayload) (token : String)
      → Leads
          (λ r e. Done (Wake.submits (kind, p)) e)
          d
          (journal_it cfg (wake_submission x row at (kind, p)) token)
  unfolding journal_it
  journal_it-effects kind p token =
      let s = wake_submission x row at (kind, p) in
      let q = request cfg kind p (op_of s) s.idempotency_key token s.claim in
      weaker (λ r e. e ≡ (submit_db q s.claim_now s.now d).1)
        (λ r e. Done (Wake.submits (kind, p)) e) (submit_db q s.claim_now s.now d).1
        (verdict cfg s.kind s.instance_id s.payload s.announce (op_of s)
          (submit_db q s.claim_now s.now d).0)
        (λ r e same. inr (q, s.claim_now, s.now, refl, same))
        (verdict-quiet cfg s (submit_db q s.claim_now s.now d).0
          (submit_db q s.claim_now s.now d).1)

  start-effects :
      (kind : OpKind)
      → Leads
          (λ r e. Done (Wake.submits (kind, OpPayload.start)) e)
          d
          (submit_claiming cfg (wake_submission x row at (kind, OpPayload.start)))
  unfolding submit_claiming guest_token checked refused_resume refused_name
  start-effects kind = elim (Bool-cases (str_eq (wake_key row.instance_id at) "")) [
    | inl e ↦ rw e (inl refl)
    | inr e ↦ rw e (journal_it-effects kind OpPayload.start "")
  ]

  resume-effects :
      (kind : OpKind)
      → Leads
          (λ r e. Done (Wake.submits (kind, OpPayload.resume none false)) e)
          d
          (submit_claiming cfg (wake_submission x row at (kind, OpPayload.resume none false)))
  unfolding submit_claiming guest_token checked refused_resume refused_name
  resume-effects kind = elim (Bool-cases (str_eq (wake_key row.instance_id at) "")) [
    | inl e ↦ rw e (inl refl)
    | inr e ↦ rw e (journal_it-effects kind (OpPayload.resume none false) "")
  ]

  submit_wake-effects :
      (kind : OpKind) (p : OpPayload)
      → (p ≡ OpPayload.start) ⊎ (p ≡ OpPayload.resume none false)
      → Leads
          (λ r e. Done (Wake.submits (kind, p)) e)
          d
          (submit_claiming cfg (wake_submission x row at (kind, p)))
  submit_wake-effects kind p (inl e) =
      subst
        (λ p.
          Leads (λ r e. Done (Wake.submits (kind, p)) e) d
            (submit_claiming cfg (wake_submission x row at (kind, p))))
        (sym e) (start-effects kind)
  submit_wake-effects kind p (inr e) =
      subst
        (λ p.
          Leads (λ r e. Done (Wake.submits (kind, p)) e) d
            (submit_claiming cfg (wake_submission x row at (kind, p))))
        (sym e) (resume-effects kind)

  reported :
      (a : Wake) (id : String) (m : Db) (r : SubmitResult)
      → Done a m
      → Leads (λ u e. Done a e) m (report_refusal id r)
  reported a id m (submitted op s) h = h
  reported a id m superseded h = h
  reported a id m (refused reason) h = elim (Bool-cases (is_deferral reason)) [
    | inl e ↦ rw e h
    | inr e ↦ rw e h
  ]

  taken_done : (o : Option Bool) (m : Db) → Leads (λ u e. e ≡ m) m (wake_taken row.instance_id o)
  taken_done (some true) m = refl
  taken_done (some false) m = refl
  taken_done none m = refl

  due_wake-effects : Leads (λ u e. Done (wake_action row.state) e) d (due_wake cfg x row at)
  unfolding due_wake consume_wake submit_wake
  due_wake-effects = by_action (wake_action row.state) (wake_action-Plain row.state)
    where
      by_action :
          (a : Wake)
          → Plain a
          → Leads
              (λ u e. Done a e)
              d
              (elim a [
                | Wake.deferred ↦ done tt
                | Wake.consumes ↦ consume_wake x row at
                | Wake.submits action ↦ submit_wake cfg x row at action
              ])
      by_action Wake.deferred h = refl
      by_action Wake.consumes h =
          taken_done (claim_wake_db row.instance_id at x.claim_now d).0
            (took row.instance_id at x.claim_now d)
      by_action (Wake.submits (kind, p)) h =
          carry_over (λ r e. Done (Wake.submits (kind, p)) e)
            (λ u e. Done (Wake.submits (kind, p)) e) d
            (submit_claiming cfg (wake_submission x row at (kind, p))) _
            (submit_wake-effects kind p h)
            (λ r m g. reported (Wake.submits (kind, p)) row.instance_id m r g)

-- What the handler of an alarm does to the database.
abbrev Fired : Draws → InstanceRow → Db → Option ℤ → Db → Type 0
Fired x row d none e = e ≡ d
Fired x row d (some at) e = (e ≡ d) ⊎ Effects (wake_action row.state) x row.instance_id at d e

fire_due_wake-effects :
    (cfg : Config) (x : Draws) (row : InstanceRow) (d : Db)
    → Leads (λ u e. Fired x row d row.wake_at_ms e) d (fire_due_wake cfg x row)
unfolding fire_due_wake
fire_due_wake-effects cfg x row d = by_alarm row.wake_at_ms
  where
    by_alarm :
        (o : Option ℤ)
        → Leads
            (λ u e. Fired x row d o e)
            d
            (elim o [
              | none ↦ done tt
              | some at ↦ if not (leb_ℤ at x.seen_at) then done tt else due_wake cfg x row at
            ])
    by_alarm none = refl
    by_alarm (some at) = elim (Bool-cases (leb_ℤ at x.seen_at)) [
      | inl e ↦ rw e (
          weaker (λ u e. Effects (wake_action row.state) x row.instance_id at d e)
            (λ u e. Fired x row d (some at) e) d (due_wake cfg x row at) (λ u e g. inr g)
            (due_wake-effects cfg x row at d))
      | inr e ↦ rw e (inl refl)
    ]

-- A due alarm acts once. Where the handler of an alarm runs twice on the same row of an instance,
-- each run alone and with its writes carried out, at whatever readings of the clock, one of the two
-- runs changes nothing: the alarm is taken at most once, and at most one operation is journaled.
pub wake_fires_once :
    (cfg : Config) (x y : Draws) (row : InstanceRow) (d e f : Db)
    → Runs d (fire_due_wake cfg x row) tt e
    → Runs e (fire_due_wake cfg y row) tt f
    → (e ≡ d) ⊎ (f ≡ e)
wake_fires_once cfg x y row d e f r s =
    by_alarm row.wake_at_ms
      (led (λ u e. Fired x row d row.wake_at_ms e) d (fire_due_wake cfg x row) tt e
        (fire_due_wake-effects cfg x row d) r)
      (led (λ u f. Fired y row e row.wake_at_ms f) e (fire_due_wake cfg y row) tt f
        (fire_due_wake-effects cfg y row e) s)
  where
    by_alarm : (o : Option ℤ) → Fired x row d o e → Fired y row e o f → (e ≡ d) ⊎ (f ≡ e)
    by_alarm none g h = inl g
    by_alarm (some at) (inl g) h = inl g
    by_alarm (some at) (inr g) (inl h) = inr h
    by_alarm (some at) (inr g) (inr h) =
        once (wake_action row.state) x y row.instance_id at d e f g h
