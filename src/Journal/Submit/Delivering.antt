-- ===== src/Journal/Submit/Delivering.antt =====
-- What the writes of `Db::submit_atomically` (crates/barista-node-agent/src/db.rs) make of the rows.
use Prim.Native.String.{String}
use mathlib.Core.Path.{subst}
use text.Mathlib.TextEquality.{eq_iff}
use text.Mathlib.TextPositions.{eq_refl}
use barista_sh.Base.{
  Bool, true, false, Bool-cases, List, [], ◌∷◌, Option, none, some, All, In, ◌≡◌, ◌≢◌, ◌⊎◌, inl,
  inr, refl, sym, ◌∙◌, ap, any, if◌then◌else◌, arith,
}
use barista_sh.Base.Int.{ℤ}
use barista_sh.Contract.{InstanceState}
use barista_sh.Contract.Spec.{InstanceSpec}
use barista_sh.Journal.Table.{find, count, update, find-update, find-passes, All-update-to}
use barista_sh.Journal.Rows.{Identity, InstanceRow, Claim, of_instance}
use barista_sh.Journal.Deadline.{cleared, claimable}
use barista_sh.Journal.Submit.{Request, created_row, moved}
use barista_sh.Journal.Submit.Promised.{
  Holds, Due, Moved, Entered, Elsewhere, claimable-Holds, Holds-claimable, hit,
}

cleared_id : (c : Claim) (t : ℤ) (r : InstanceRow) → (cleared c t r).instance_id ≡ r.instance_id
cleared_id (Claim.ttl_expiry d) t r = refl
cleared_id (Claim.wake d) t r = refl

cleared-Holds_not :
    (id : String) (c : Claim) (t : ℤ) (r : InstanceRow) → ¬ Holds id c (cleared c t r)
cleared-Holds_not id (Claim.ttl_expiry d) t r (i, h) = absurd cc
cleared-Holds_not id (Claim.wake d) t r (i, h) = absurd cc

moved-Holds :
    (id : String) (c : Claim) (s : InstanceState) (now : ℤ) (r : InstanceRow)
    → ¬ Holds id c r
    → ¬ Holds id c (moved s now r)
moved-Holds id (Claim.ttl_expiry d) s now r h = h
moved-Holds id (Claim.wake d) s now r h = h

created-Holds_not :
    (id : String) (c : Claim) (q : Request) (spec : InstanceSpec) (i : Option Identity) (now : ℤ)
    → ¬ Holds id c (created_row q spec i now)
created-Holds_not id (Claim.ttl_expiry d) q spec i now (a, h) = absurd cc
created-Holds_not id (Claim.wake d) q spec i now (a, h) = absurd cc

all_trivial : (rs : List InstanceRow) → All (λ r. Unit {0}) rs
all_trivial [] = tt
all_trivial (r ∷ rs) = (tt, all_trivial rs)

-- an UPDATE of the rows of one instance, seen from another
other_found :
    (id other : String) (p : InstanceRow → Bool) (f : InstanceRow → InstanceRow)
    (rows : List InstanceRow)
    → other ≢ id
    → ((r : InstanceRow) → (f r).instance_id ≡ r.instance_id)
    → ((r : InstanceRow) → p r ≡ true → r.instance_id ≡ id)
    → find (of_instance other) (update p f rows) ≡ find (of_instance other) rows
other_found id other p f [] apart key own = refl
other_found id other p f (r ∷ rows) apart key own = elim (Bool-cases (p r)) [
  | inl t ↦
      let off : of_instance other r ≡ false = misses r (own r t) in
      let off_too : of_instance other (f r) ≡ false = misses (f r) (key r ∙ own r t) in
      ground (arith, t, off, off_too, other_found id other p f rows apart key own)
  | inr t ↦ ground (arith, t, other_found id other p f rows apart key own)
]
  where
    misses : (r : InstanceRow) → r.instance_id ≡ id → of_instance other r ≡ false
    misses r e = elim (Bool-cases (of_instance other r)) [
      | inl h ↦ absurd (apart (sym ((eq_iff r.instance_id other).0 h) ∙ e))
      | inr h ↦ h
    ]

module _ (q : Request) (t now : ℤ) (s : InstanceState) (rows left final : List InstanceRow) where
  abbrev pub ConsumesBy : Option Claim → Type 0
  ConsumesBy none = left ≡ rows
  ConsumesBy (some c) =
      (count (claimable q.op.instance_id c t) rows ≡ 1)
      × (left ≡ update (claimable q.op.instance_id c t) (cleared c t) rows)

  abbrev pub WritesBy : Option InstanceSpec → Type 0
  WritesBy none = final ≡ update (of_instance q.op.instance_id) (moved s now) left
  WritesBy (some spec) =
      (any (of_instance spec.instance_id) left ≡ false)
      × (identity : Option Identity) × (q.mint_identity spec.instance_id ≡ some identity)
      × (final ≡ created_row q spec identity now ∷ left)

  kept_away :
      (c : Claim) (o : Option InstanceSpec)
      → WritesBy o
      → All (λ r. ¬ Holds q.op.instance_id c r) left
      → All (λ r. ¬ Holds q.op.instance_id c r) final
  kept_away c none w h = subst (All (λ r. ¬ Holds q.op.instance_id c r)) (sym w) (
      All-update-to (λ r. ¬ Holds q.op.instance_id c r) (λ r. ¬ Holds q.op.instance_id c r)
        (of_instance q.op.instance_id) (moved s now) left
        (λ r e g. moved-Holds q.op.instance_id c s now r g) (λ r e g. g) h)
  kept_away c (some spec) (fresh, i, minted, w) h =
      subst (All (λ r. ¬ Holds q.op.instance_id c r)) (sym w)
        (created-Holds_not q.op.instance_id c q spec i now, h)

  gone :
      (c : Claim)
      → Due c t
      → All
          (λ r. ¬ Holds q.op.instance_id c r)
          (update (claimable q.op.instance_id c t) (cleared c t) rows)
  gone c due =
      All-update-to (λ r. Unit {0}) (λ r. ¬ Holds q.op.instance_id c r)
        (claimable q.op.instance_id c t) (cleared c t) rows
        (λ r e u. cleared-Holds_not q.op.instance_id c t r)
        (λ r e u h. cc (Holds-claimable q.op.instance_id c t r due h, e)) (all_trivial rows)

  pub claimed :
      (o : Option Claim) (w : Option InstanceSpec)
      → ConsumesBy o
      → WritesBy w
      → (c : Claim) → o ≡ some c
      → ((r : InstanceRow) × In r rows × Holds q.op.instance_id c r × Due c t)
        × All (λ r. ¬ Holds q.op.instance_id c r) final
  claimed none w consumes writes c e = absurd cc
  claimed (some b) w (one, e) writes c same =
      let is_it : b ≡ c = cc in
      subst
        (λ c.
          ((r : InstanceRow) × In r rows × Holds q.op.instance_id c r × Due c t)
          × All (λ r. ¬ Holds q.op.instance_id c r) final)
        is_it (by_hit (hit (claimable q.op.instance_id b t) rows one))
    where
      by_hit :
          ((r : InstanceRow) × In r rows × (claimable q.op.instance_id b t r ≡ true))
          → ((r : InstanceRow) × In r rows × Holds q.op.instance_id b r × Due b t)
            × All (λ r. ¬ Holds q.op.instance_id b r) final
      by_hit (r, i, h) =
          let (holds, due) = claimable-Holds q.op.instance_id b t r h in
          (
            (r, i, holds, due),
            kept_away b w writes
                (subst (All (λ r. ¬ Holds q.op.instance_id b r)) (sym e) (gone b due)),
          )

  left_elsewhere :
      (o : Option Claim) (id : String)
      → ConsumesBy o
      → id ≢ q.op.instance_id
      → find (of_instance id) left ≡ find (of_instance id) rows
  left_elsewhere none id e apart = ap (λ l. find (of_instance id) l) e
  left_elsewhere (some c) id (one, e) apart =
      ap (λ l. find (of_instance id) l) e
      ∙ other_found q.op.instance_id id (claimable q.op.instance_id c t) (cleared c t) rows apart
          (cleared_id c t) (λ r h. own c r (claimable-Holds q.op.instance_id c t r h).0)
    where
      own :
          (c : Claim) (r : InstanceRow)
          → Holds q.op.instance_id c r
          → r.instance_id ≡ q.op.instance_id
      own (Claim.ttl_expiry d) r h = h.0
      own (Claim.wake d) r h = h.0

  pub elsewhere :
      (c : Option Claim) (o : Option InstanceSpec) (id : String)
      → ConsumesBy c
      → WritesBy o
      → Elsewhere q o id
      → find (of_instance id) final ≡ find (of_instance id) rows
  elsewhere c none id consumes w apart =
      ap (λ l. find (of_instance id) l) w
      ∙ other_found q.op.instance_id id (of_instance q.op.instance_id) (moved s now) left apart
          (λ r. refl) (λ r h. (eq_iff r.instance_id q.op.instance_id).0 h)
      ∙ left_elsewhere c id consumes apart
  elsewhere c (some spec) id consumes (fresh, i, minted, w) (apart, new) =
      ap (λ l. find (of_instance id) l) w
      ∙ unnamed (Bool-cases (of_instance id (created_row q spec i now)))
      ∙ left_elsewhere c id consumes apart
    where
      unnamed :
          ((of_instance id (created_row q spec i now) ≡ true)
            ⊎ (of_instance id (created_row q spec i now) ≡ false))
          → find (of_instance id) (created_row q spec i now ∷ left) ≡ find (of_instance id) left
      unnamed (inl h) = absurd (new (sym ((eq_iff spec.instance_id id).0 h)))
      unnamed (inr h) = ground (arith, h)

  left_found :
      (o : Option Claim) (r : InstanceRow)
      → ConsumesBy o
      → find (of_instance q.op.instance_id) rows ≡ some r
      → (u : InstanceRow) × (find (of_instance q.op.instance_id) left ≡ some u)
        × Moved s now r (moved s now u)
  left_found none r e found = (
    r,
    ap (λ l. find (of_instance q.op.instance_id) l) e ∙ found,
    record {
      state = refl;
      at = refl;
      same_spec = refl;
      same_token = refl;
      same_snapshot = refl;
      same_epoch = refl;
    },
  )
  left_found (some c) r (one, e) found = (
    if claimable q.op.instance_id c t r then cleared c t r else r,
    ap (λ l. find (of_instance q.op.instance_id) l) e
        ∙ ground (
          arith,
          find-update (of_instance q.op.instance_id) (claimable q.op.instance_id c t) (cleared c t)
              rows (λ r. ap (λ i. of_id i) (cleared_id c t r)),
          found,
        ),
    by_claim c (claimable q.op.instance_id c t r),
  )
    where
      of_id : String → Bool
      of_id i = of_instance q.op.instance_id (record r { instance_id = i })

      by_claim :
          (c : Claim) (b : Bool) → Moved s now r (moved s now (if b then cleared c t r else r))
      by_claim (Claim.ttl_expiry d) true = record {
        state = refl;
        at = refl;
        same_spec = refl;
        same_token = refl;
        same_snapshot = refl;
        same_epoch = refl;
      }
      by_claim (Claim.wake d) true = record {
        state = refl;
        at = refl;
        same_spec = refl;
        same_token = refl;
        same_snapshot = refl;
        same_epoch = refl;
      }
      by_claim c false = record {
        state = refl;
        at = refl;
        same_spec = refl;
        same_token = refl;
        same_snapshot = refl;
        same_epoch = refl;
      }

  pub entered :
      (c : Option Claim) (o : Option InstanceSpec)
      → ConsumesBy c
      → WritesBy o
      → (elim o as (λ _. Type 0) [
        | some _ ↦ (find (of_instance q.op.instance_id) rows ≡ none) × (q.transitional ≡ s)
        | none ↦
            (r : InstanceRow) × (find (of_instance q.op.instance_id) rows ≡ some r)
            × (q.plan r.state ≡ some s)
      ])
      → Entered q o s now rows final
  entered c none consumes w (r, found, plan) =
      let (u, at, is_moved) = left_found c r consumes found in
      (
        r,
        moved s now u,
        found,
        ap (λ l. find (of_instance q.op.instance_id) l) w
            ∙ ground (
              arith,
              find-update (of_instance q.op.instance_id) (of_instance q.op.instance_id)
                  (moved s now) left (λ r. refl),
              at,
              find-passes (of_instance q.op.instance_id) left u at,
            ),
        is_moved,
      )
  entered c (some spec) consumes (fresh, i, minted, w) plan = (
    created_row q spec i now,
    ap (λ l. find (of_instance spec.instance_id) l) w ∙ ground (arith, eq_refl spec.instance_id),
    record {
      same_spec = refl;
      state = refl;
      unready = refl;
      token = refl;
      created = refl;
      no_deadline = refl;
      no_alarm = refl;
      no_snapshot = refl;
      no_epoch = refl;
    },
  )
