-- ===== src/Capsule/Collecting.antt =====
-- What the collection of objects may take, and what a registration that is repeated does
-- (crates/barista-node-agent/src/db.rs).
use Prim.Native.String.{String}
use text.Mathlib.TextEquality.{eq_iff}
use mathlib.Core.Path.{subst}
use barista_sh.Base.{
  ℕ, ◌≤◌, ◌<◌, Bool, true, false, ltb, In, List, [], ◌∷◌, none, some, Option-cases, ◌≡◌, ◌≢◌, ◌↔◌,
  refl, sym, ap, ◌∙◌, inl, inr, Bool-cases, arith,
}
use barista_sh.Journal.Table.{find, find-update, count, find-All, find-passes}
use barista_sh.Capsule.Rows.{CapsuleObject, CapsuleRow, ObjectRef, Registry, of_capsule, of_digest}
use barista_sh.Capsule.Registry.{
  register_capsule, is_collectable, digests, collectable_objects, capsule_tier_rank,
}
use barista_sh.Capsule.Counting.{total, named, mentions, Marked, total-none}
use barista_sh.Capsule.Counted.{Counted, Arrived, Arrived-Counted, find-zero}

find-zero-conv : {Row : Type 0} (p : Row → Bool) (rs : List Row) → count p rs ≡ 0 → find p rs ≡ none
find-zero-conv p [] e = refl
find-zero-conv p (r ∷ rs) e = ground (arith, find-zero-conv p rs)

-- What the row of a digest says, where digests have one row.
row-total :
    (d : String) (refs : List ObjectRef) (r : ObjectRef)
    → count (of_digest d) refs ≤ 1
    → find (of_digest d) refs ≡ some r
    → total d refs ≡ r.refcount
row-total d [] r u e = absurd cc
row-total d (x ∷ refs) r u e = elim (Bool-cases (of_digest d x)) [
  | inl b ↦ ground (arith, b, total-none d refs (ground (arith, b)))
  | inr b ↦ ground (arith, b, row-total d refs r (ground (arith, b)) (ground (arith, b)))
]

listed-row :
    (d : String) (refs : List ObjectRef)
    → In d (digests is_collectable refs)
    → (r : ObjectRef) × In r refs × (r.digest ≡ d) × (is_collectable r ≡ true)
listed-row d [] m = absurd m
listed-row d (x ∷ refs) m = elim (Bool-cases (is_collectable x)) [
  | inl b ↦ elim (rw b at m) [
    | inl e ↦ (x, inl refl, e, b)
    | inr k ↦ let (r, i, e, c) = listed-row d refs k in (r, inr i, e, c)
  ]
  | inr b ↦ let (r, i, e, c) = listed-row d refs (rw b at m) in (r, inr i, e, c)
]

row-listed :
    (d : String) (refs : List ObjectRef) (r : ObjectRef)
    → find (of_digest d) refs ≡ some r
    → is_collectable r ≡ true
    → In d (digests is_collectable refs)
row-listed d [] r e c = absurd cc
row-listed d (x ∷ refs) r e c = elim (Bool-cases (of_digest d x)) [
  | inl b ↦ rw (same_test x r (ground (arith, b)) c) (inl ((eq_iff x.digest d).0 b))
  | inr b ↦
      let rest = row-listed d refs r (ground (arith, b)) c in
      elim (Bool-cases (is_collectable x)) [ inl k ↦ rw k (inr rest) | inr k ↦ rw k rest ]
]
  where
    same_test : (x r : ObjectRef) → x ≡ r → is_collectable r ≡ true → is_collectable x ≡ true
    same_test x r e c = subst (λ y. is_collectable y ≡ true) (sym e) c

In-find :
    (d : String) (refs : List ObjectRef) (r : ObjectRef)
    → count (of_digest d) refs ≤ 1
    → In r refs
    → r.digest ≡ d
    → find (of_digest d) refs ≡ some r
In-find d [] r u m e = absurd m
In-find d (x ∷ refs) r u (inl k) e =
    ground (arith, (eq_iff x.digest d).1 (ap (λ y. y.digest) k ∙ e), k)
In-find d (x ∷ refs) r u (inr m) e = elim (Bool-cases (of_digest d x)) [
  | inl b ↦ absurd (
      cc (
        find-zero-conv (of_digest d) refs (ground (arith, b)),
        In-find d refs r (ground (arith, b)) m e,
      ))
  | inr b ↦ ground (arith, b, In-find d refs r (ground (arith, b)) m e)
]

collectable-unnamed :
    (g : Registry) (d : String)
    → Counted g
    → In d (collectable_objects g)
    → (mentions d g.capsules ≡ 0) × (find (of_digest d) g.refs ≢ none)
unfolding collectable_objects
collectable-unnamed g d c m =
    let (r, i, e, k) = listed-row d g.refs m in
    let f = In-find d g.refs r (c.unique d) i e in
    (ground (arith, c.counted d, row-total d g.refs r (c.unique d) f, k), λ n. cc (n, f))

unnamed-collectable :
    (g : Registry) (d : String)
    → Counted g
    → mentions d g.capsules ≡ 0
    → find (of_digest d) g.refs ≢ none
    → In d (collectable_objects g)
unfolding collectable_objects
unnamed-collectable g d c z n = elim (Option-cases (find (of_digest d) g.refs)) [
  | inl k ↦ absurd (n k)
  | inr (r, f) ↦ row-listed d g.refs r f (
      ground (
        arith,
        c.counted d,
        z,
        row-total d g.refs r (c.unique d) f,
        (find-All Marked (of_digest d) g.refs r c.marked f).1,
      ))
]

-- In a reached registry the collection is offered exactly the objects that have a row and that no
-- live capsule names: it never takes a referenced object and misses no unreferenced one.
pub collectable_iff :
    {g : Registry}
    → Arrived g
    → (d : String)
    → In d (collectable_objects g)
      ↔ ((mentions d g.capsules ≡ 0) × (find (of_digest d) g.refs ≢ none))
collectable_iff {g = g} a d = (
  collectable-unnamed g d (Arrived-Counted a),
  λ (z, n). unnamed-collectable g d (Arrived-Counted a) z n,
)

named-positive : (o : CapsuleObject) (os : List CapsuleObject) → In o os → 0 < named o.digest os
named-positive o [] m = absurd m
named-positive o (x ∷ os) (inl e) =
    ground (arith, (eq_iff x.digest o.digest).1 (ap (λ y. y.digest) e))
named-positive o (x ∷ os) (inr m) = ground (arith, named-positive o os m)

mentions-positive :
    (d : String) (c : CapsuleRow) (cs : List CapsuleRow)
    → In c cs
    → 0 < named d c.manifest.objects
    → 0 < mentions d cs
mentions-positive d c [] m h = absurd m
mentions-positive d c (x ∷ cs) (inl e) h =
    ground (arith, ap (λ (y : CapsuleRow). named d y.manifest.objects) e, h)
mentions-positive d c (x ∷ cs) (inr m) h = ground (arith, mentions-positive d c cs m h)

-- Every object that the manifest of a live capsule names has a row in a reached registry, with a
-- reference, verified, and not marked for collection.
pub live_object_kept :
    {g : Registry}
    → Arrived g
    → (c : CapsuleRow) (o : CapsuleObject) → In c g.capsules
    → In o c.manifest.objects
    → (r : ObjectRef) × (find (of_digest o.digest) g.refs ≡ some r)
      × (0 < r.refcount)
      × (r.verified ≡ true)
      × (r.gc_pending ≡ false)
live_object_kept {g = g} a c o m n =
    let k = Arrived-Counted a in
    let many = mentions-positive o.digest c g.capsules m (named-positive o c.manifest.objects n) in
    elim (Option-cases (find (of_digest o.digest) g.refs)) [
      | inl e ↦ absurd (
          omega (
            arith,
            many,
            k.counted o.digest,
            total-none o.digest g.refs (find-zero (of_digest o.digest) g.refs e),
          ))
      | inr (r, e) ↦
          let pos : 0 < r.refcount =
            omega (
              arith,
              many,
              k.counted o.digest,
              row-total o.digest g.refs r (k.unique o.digest) e,
            ) in
          let ok = (find-All Marked (of_digest o.digest) g.refs r k.marked e).0 pos in
          (r, e, pos, ok.1, ok.0)
    ]

-- A row of the capsule's is there, at this tier or a higher one.
register_known :
    (row x : CapsuleRow) (g : Registry)
    → find (of_capsule row.capsule_id) g.capsules ≡ some x
    → ltb (capsule_tier_rank x.storage) (capsule_tier_rank row.storage) ≡ false
    → register_capsule row g ≡ (x, g)
unfolding register_capsule
register_known row x g f b = ground (arith, f, b)

ltb_irreflexive : (n : ℕ) → ltb n n ≡ false
ltb_irreflexive n = ground arith

registered :
    (row : CapsuleRow) (g : Registry)
    → (find (of_capsule row.capsule_id) (register_capsule row g).1.capsules
        ≡ some (register_capsule row g).0)
      × (ltb (capsule_tier_rank (register_capsule row g).0.storage) (capsule_tier_rank row.storage)
          ≡ false)
unfolding register_capsule
registered row g = elim (Option-cases (find (of_capsule row.capsule_id) g.capsules)) [
  | inl n ↦
      rw (n, register_capsule, (eq_iff row.capsule_id row.capsule_id).1 refl)
        (refl, ltb_irreflexive (capsule_tier_rank row.storage))
  | inr (old, n) ↦
      elim (Bool-cases (ltb (capsule_tier_rank old.storage) (capsule_tier_rank row.storage))) [
        | inl b ↦
            rw (n, register_capsule, b)
              (
                find-update (of_capsule row.capsule_id) (of_capsule row.capsule_id)
                      (λ r. record r { storage = row.storage }) g.capsules (λ r. refl)
                    ∙ rw (n, find-passes (of_capsule row.capsule_id) g.capsules old n) refl,
                ltb_irreflexive (capsule_tier_rank row.storage),
              )
        | inr b ↦ rw (n, register_capsule, b) (n, b)
      ]
]

-- After a registration the capsule is found as the call handed it back, at the tier it names or a
-- higher one, and registering it again hands back the same row, takes no reference and writes
-- nothing.
pub register_twice :
    (row : CapsuleRow) (g : Registry)
    → (find (of_capsule row.capsule_id) (register_capsule row g).1.capsules
        ≡ some (register_capsule row g).0)
      × (capsule_tier_rank row.storage ≤ capsule_tier_rank (register_capsule row g).0.storage)
      × (register_capsule row (register_capsule row g).1 ≡ register_capsule row g)
register_twice row g =
    let (f, b) = registered row g in
    (
      f,
      ground (arith, b),
      register_known row (register_capsule row g).0 (register_capsule row g).1 f b,
    )
