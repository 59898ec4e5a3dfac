-- ===== src/Capsule/Releasing.antt =====
-- How dropping references moves the counts of `object_refs`
-- (crates/barista-node-agent/src/db.rs).
use Prim.Native.String.{String}
use text.Mathlib.Text.{◌==◌ as str_eq}
use text.Mathlib.TextEquality.{eq_iff}
use barista_sh.Base.{
  ◌+◌, ◌≤◌, All, List, [], ◌∷◌, if◌then◌else◌, ◌≡◌, refl, inl, inr, Bool-cases, arith,
}
use barista_sh.Journal.Table.{update, count, update-none}
use barista_sh.Capsule.Rows.{CapsuleObject, ObjectRef, of_digest}
use barista_sh.Capsule.Registry.{released, drop_references}
use barista_sh.Capsule.Counting.{total, named, Unique, Marked, total-none, count-same, one_digest}

total-released :
    (d e : String) (refs : List ObjectRef)
    → count (of_digest e) refs ≤ 1
    → 1 ≤ total e refs
    → total d (update (of_digest e) released refs) + (if str_eq e d then 1 else 0) ≡ total d refs
total-released d e [] u h = absurd (omega arith)
total-released d e (r ∷ refs) u h = elim (Bool-cases (of_digest e r)) [
  | inl b ↦ ground (
    arith,
    b,
    one_digest e d r b,
    total-none e refs (ground (arith, b)),
    update-none (of_digest e) released refs (ground (arith, b)),
  )
  | inr b ↦ ground (arith, b, total-released d e refs (ground (arith, b)) (ground (arith, b)))
]

released-Marked :
    (e : String) (refs : List ObjectRef)
    → count (of_digest e) refs ≤ 1
    → 1 ≤ total e refs
    → All Marked refs
    → All Marked (update (of_digest e) released refs)
released-Marked e [] u h a = tt
released-Marked e (r ∷ refs) u h (m, a) = elim (Bool-cases (of_digest e r)) [
  | inl b ↦
      rw (b, update-none (of_digest e) released refs (ground (arith, b)))
        (one_less r (ground (arith, b, total-none e refs (ground (arith, b)))) m, a)
  | inr b ↦ rw b (m, released-Marked e refs (ground (arith, b)) (ground (arith, b)) a)
]
  where
    one_less : (r : ObjectRef) → 1 ≤ r.refcount → Marked r → Marked (released r)
    one_less r h m =
        (λ k. (ground (arith, m.0 (omega arith)), (m.0 (omega arith)).1), λ k. ground arith)

pub drop_references-total :
    (d : String) (os : List CapsuleObject) (refs : List ObjectRef)
    → Unique refs
    → ((e : String) → named e os ≤ total e refs)
    → total d (drop_references os refs) + named d os ≡ total d refs
drop_references-total d [] refs u h = omega arith
drop_references-total d (o ∷ os) refs u h = ground (
  arith,
  total-released d o.digest refs (u o.digest) (first o os refs h),
  drop_references-total d os (update (of_digest o.digest) released refs)
      (λ e. ground (arith, u e, count-same e (of_digest o.digest) released refs (λ r. refl)))
      (λ e. ground (arith, h e, total-released e o.digest refs (u o.digest) (first o os refs h))),
)
  where
    first :
        (o : CapsuleObject) (os : List CapsuleObject) (refs : List ObjectRef)
        → ((e : String) → named e (o ∷ os) ≤ total e refs)
        → 1 ≤ total o.digest refs
    first o os refs h = ground (arith, h o.digest, (eq_iff o.digest o.digest).1 refl)

pub drop_references-Unique :
    (os : List CapsuleObject) (refs : List ObjectRef)
    → Unique refs
    → Unique (drop_references os refs)
drop_references-Unique [] refs u = u
drop_references-Unique (o ∷ os) refs u =
    drop_references-Unique os (update (of_digest o.digest) released refs)
      (λ e. ground (arith, u e, count-same e (of_digest o.digest) released refs (λ r. refl)))

pub drop_references-Marked :
    (os : List CapsuleObject) (refs : List ObjectRef)
    → Unique refs
    → ((e : String) → named e os ≤ total e refs)
    → All Marked refs
    → All Marked (drop_references os refs)
drop_references-Marked [] refs u h a = a
drop_references-Marked (o ∷ os) refs u h a =
    drop_references-Marked os (update (of_digest o.digest) released refs)
      (λ e. ground (arith, u e, count-same e (of_digest o.digest) released refs (λ r. refl)))
      (λ e. ground (arith, h e, total-released e o.digest refs (u o.digest) first))
      (released-Marked o.digest refs (u o.digest) first a)
  where
    first : 1 ≤ total o.digest refs
    first = ground (arith, h o.digest, (eq_iff o.digest o.digest).1 refl)
