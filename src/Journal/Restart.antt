-- ===== src/Journal/Restart.antt =====
-- What a node's restart leaves of the operations that were under way: the claims that `Db::open`
-- releases and `Db::fail_inflight_ops` (crates/barista-node-agent/src/db.rs).
use Prim.Native.String.{String}
use text.Mathlib.Text.{◌==◌ as str_eq}
use text.Mathlib.TextEquality.{eq_iff}
use barista_sh.Base.{
  true, false, Bool-cases, List, [], ◌∷◌, All, In, ◌≡◌, ◌⊎◌, inl, inr, refl, arith, ◌∙◌, sym,
}
use barista_sh.Base.Int.{ℤ}
use barista_sh.Contract.{ErrorReason}
use barista_sh.Machine.Operation.{op_is_in_flight}
use barista_sh.Journal.Table.{count, update}
use barista_sh.Journal.Rows.{StoredOperation, Journal, of_op}
use barista_sh.Journal.Submit.{active_on}
use barista_sh.Journal.Operations.{
  in_flight_ops, failed_row, finish_op_failed, in_flight_ids, fail_all, fail_inflight_ops,
  release_claims, claimed_row,
}
use barista_sh.Journal.Table.{All-weaken, All-update-to, All-zip, All-count}
use barista_sh.Journal.Operations.{restart, has_inflight_op}
use barista_sh.Journal.Invariant.Moves.{not_in_flight}

abbrev Idle : StoredOperation → Type 0
Idle r = (op_is_in_flight r.op.state ≡ false) × (r.executor_active ≡ false)

drop_head : (i id : String) (ids : List String) → str_eq id i ≡ false → In id (i ∷ ids) → In id ids
drop_head i id ids h (inl e) = absurd (cc (h, (eq_iff id i).1 (sym e)))
drop_head i id ids h (inr m) = m

failed-Idle :
    (message : String) (now : ℤ) (r : StoredOperation)
    → Idle (failed_row ErrorReason.unspecified message now r)
unfolding op_is_in_flight
failed-Idle message now r = (refl, refl)

fail_all-Idle :
    (ids : List String) (message : String) (now : ℤ) (j : Journal)
    → All (λ r. Idle r ⊎ In r.op.op_id ids) j.operations
    → All Idle (fail_all ids message now j).operations
unfolding finish_op_failed
fail_all-Idle [] message now j a =
    All-weaken (λ r. Idle r ⊎ ⊥) Idle j.operations (λ r x. elim x [ inl i ↦ i | inr e ↦ absurd e ])
      a
fail_all-Idle (i ∷ ids) message now j a =
    fail_all-Idle ids message now (finish_op_failed i ErrorReason.unspecified message now j) (
      All-update-to (λ r. Idle r ⊎ In r.op.op_id (i ∷ ids)) (λ r. Idle r ⊎ In r.op.op_id ids)
        (of_op i) (failed_row ErrorReason.unspecified message now) j.operations
        (λ r h x. inl (failed-Idle message now r))
        (λ r h x. elim x [ inl d ↦ inl d | inr m ↦ inr (drop_head i r.op.op_id ids h m) ]) a)

still_listed :
    (r : StoredOperation) (ops : List StoredOperation) (id : String)
    → In id (in_flight_ids ops)
    → In id (in_flight_ids (r ∷ ops))
still_listed r ops id m = elim (Bool-cases (in_flight_ops r.op.state)) [
  | inl b ↦ rw b (inr m)
  | inr b ↦ rw b m
]

-- The rows in flight are among those selected.
listed :
    (ops : List StoredOperation)
    → All (λ r. (in_flight_ops r.op.state ≡ false) ⊎ In r.op.op_id (in_flight_ids ops)) ops
listed [] = tt
listed (r ∷ ops) = (
  elim (Bool-cases (in_flight_ops r.op.state)) [ inl b ↦ inr (rw b (inl refl)) | inr b ↦ inl b ],
  All-weaken _ _ ops
      (λ x h. elim h [ inl f ↦ inl f | inr m ↦ inr (still_listed r ops x.op.op_id m) ])
      (listed ops),
)

restart-Idle :
    (message : String) (now : ℤ) (j : Journal) → All Idle (restart message now j).operations
unfolding restart release_claims fail_inflight_ops
restart-Idle message now j =
    let released = update (λ r. true) claimed_row j.operations in
    fail_all-Idle (in_flight_ids released) message now (release_claims j) (
      All-weaken _ _ released
        (λ r h. elim h.1 [ inl f ↦ inl (not_in_flight r.op.state f, h.0 ∙ f) | inr m ↦ inr m ])
        (All-zip (λ r. r.executor_active ≡ in_flight_ops r.op.state) _ released
          (claimed j.operations) (listed released)))
  where
    claimed :
        (ops : List StoredOperation)
        → All
            (λ r. r.executor_active ≡ in_flight_ops r.op.state)
            (update (λ r. true) claimed_row ops)
    claimed [] = tt
    claimed (r ∷ ops) = (refl, claimed ops)

-- A restart settles everything: whatever the journal held, no operation is in flight once the node
-- has opened it and failed what was under way, and no executor, not even one of an operation that
-- was canceled, blocks an instance any more.
pub restart_settles :
    (message : String) (now : ℤ) (j : Journal)
    → (count (λ r. op_is_in_flight r.op.state) (restart message now j).operations ≡ 0)
      × ((id : String) → has_inflight_op id (restart message now j) ≡ false)
unfolding has_inflight_op
restart_settles message now j = (
  All-count _ (restart message now j).operations (
      All-weaken Idle _ (restart message now j).operations (λ r i. i.0)
        (restart-Idle message now j)),
  λ id. ground (
    arith,
    All-count (active_on id) (restart message now j).operations (
        All-weaken Idle _ (restart message now j).operations (λ r i. ground (arith, i.1))
          (restart-Idle message now j)),
  ),
)
