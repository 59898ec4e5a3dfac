-- ===== src/Capsule/Counting.antt =====
-- How taking and dropping references moves the counts of `object_refs`
-- (crates/barista-node-agent/src/db.rs).
use Prim.Native.String.{String}
use text.Mathlib.Text.{◌==◌ as str_eq}
use text.Mathlib.TextEquality.{eq_iff}
use barista_sh.Base.{
  ℕ, suc, ◌+◌, ◌≤◌, ◌<◌, Bool, true, false, not, ◌==◌, any, All, List, [], ◌∷◌, if◌then◌else◌, ◌≡◌,
  refl, ap, inl, inr, Bool-cases, arith,
}
use barista_sh.Journal.Table.{update, count, All-update}
use barista_sh.Capsule.Rows.{CapsuleObject, CapsuleRow, ObjectRef, of_digest}
use barista_sh.Capsule.Registry.{referenced, take_reference, take_references}

-- The references that the rows of a digest record.
abbrev pub total : String → List ObjectRef → ℕ
total d [] = 0
total d (r ∷ refs) = if of_digest d r then r.refcount + total d refs else total d refs

-- How often a manifest names a digest.
abbrev pub named : String → List CapsuleObject → ℕ
named d [] = 0
named d (o ∷ os) = if str_eq o.digest d then suc (named d os) else named d os

-- How often the manifests of the live capsules name a digest.
abbrev pub mentions : String → List CapsuleRow → ℕ
mentions d [] = 0
mentions d (c ∷ cs) = named d c.manifest.objects + mentions d cs

abbrev pub Unique : List ObjectRef → Type 0
Unique refs = (d : String) → count (of_digest d) refs ≤ 1

-- An object with a reference is verified and kept, one without is to be collected.
abbrev pub Marked : ObjectRef → Type 0
Marked r =
    (0 < r.refcount → (r.gc_pending ≡ false) × (r.verified ≡ true))
    × (r.refcount ≡ 0 → r.gc_pending ≡ true)

pub total-none :
    (d : String) (refs : List ObjectRef) → count (of_digest d) refs ≡ 0 → total d refs ≡ 0
total-none d [] e = refl
total-none d (r ∷ refs) e = ground (arith, total-none d refs)

any-count : {Row : Type 0} (p : Row → Bool) (rs : List Row) → any p rs ≡ (not (count p rs == 0))
any-count p [] = ground arith
any-count p (r ∷ rs) = ground (arith, any-count p rs)

pub count-same :
    (d : String) (p : ObjectRef → Bool) (f : ObjectRef → ObjectRef) (refs : List ObjectRef)
    → ((r : ObjectRef) → (f r).digest ≡ r.digest)
    → count (of_digest d) (update p f refs) ≡ count (of_digest d) refs
count-same d p f [] h = refl
count-same d p f (r ∷ refs) h = ground (arith, h r, count-same d p f refs h)

pub one_digest : (e d : String) (r : ObjectRef) → of_digest e r ≡ true → of_digest d r ≡ str_eq e d
one_digest e d r h = ap (λ x. str_eq x d) ((eq_iff r.digest e).0 h)

total-referenced :
    (d e : String) (refs : List ObjectRef)
    → total d (update (of_digest e) referenced refs)
      ≡ total d refs + (if str_eq e d then count (of_digest e) refs else 0)
total-referenced d e [] = ground arith
total-referenced d e (r ∷ refs) = ground (arith, total-referenced d e refs, one_digest e d r)

total-take_reference :
    (d : String) (o : CapsuleObject) (refs : List ObjectRef)
    → Unique refs
    → total d (take_reference o refs) ≡ total d refs + (if str_eq o.digest d then 1 else 0)
total-take_reference d o refs u =
    ground
      (arith, u o.digest, any-count (of_digest o.digest) refs, total-referenced d o.digest refs)

take_reference-Unique :
    (o : CapsuleObject) (refs : List ObjectRef) → Unique refs → Unique (take_reference o refs)
take_reference-Unique o refs u d = elim (Bool-cases (str_eq o.digest d)) [
  | inl e ↦ ground (
    arith,
    e,
    u d,
    any-count (of_digest o.digest) refs,
    count-same d (of_digest o.digest) referenced refs (λ r. refl),
    ap (λ x. count (of_digest x) refs) ((eq_iff o.digest d).0 e),
  )
  | inr e ↦ ground (arith, e, u d, count-same d (of_digest o.digest) referenced refs (λ r. refl))
]

referenced-Marked :
    (o : CapsuleObject) (refs : List ObjectRef)
    → All Marked refs
    → All Marked (take_reference o refs)
referenced-Marked o refs a = elim (Bool-cases (any (of_digest o.digest) refs)) [
  | inl e ↦ rw e (
      All-update Marked (of_digest o.digest) referenced refs
        (λ r h m. (λ k. (refl, refl), λ k. ground arith)) a)
  | inr e ↦ rw e ((λ k. (refl, refl), λ k. ground arith), a)
]

pub total-take_references :
    (d : String) (os : List CapsuleObject) (refs : List ObjectRef)
    → Unique refs
    → total d (take_references os refs) ≡ total d refs + named d os
total-take_references d [] refs u = ground arith
total-take_references d (o ∷ os) refs u = ground (
  arith,
  total-take_reference d o refs u,
  total-take_references d os (take_reference o refs) (take_reference-Unique o refs u),
)

pub take_references-Unique :
    (os : List CapsuleObject) (refs : List ObjectRef)
    → Unique refs
    → Unique (take_references os refs)
take_references-Unique [] refs u = u
take_references-Unique (o ∷ os) refs u =
    take_references-Unique os (take_reference o refs) (take_reference-Unique o refs u)

pub take_references-Marked :
    (os : List CapsuleObject) (refs : List ObjectRef)
    → All Marked refs
    → All Marked (take_references os refs)
take_references-Marked [] refs a = a
take_references-Marked (o ∷ os) refs a =
    take_references-Marked os (take_reference o refs) (referenced-Marked o refs a)
