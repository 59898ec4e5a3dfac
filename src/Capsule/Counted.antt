-- ===== src/Capsule/Counted.antt =====
-- The reference count of an object is the number of references from live capsules
-- (crates/barista-node-agent/src/db.rs), through any calls of the registry.
use Prim.Native.String.{String}
use text.Mathlib.Text.{◌==◌ as str_eq}
use text.Mathlib.TextEquality.{eq_iff}
use barista_sh.Base.{
  ℕ, ◌+◌, ◌≤◌, Bool, true, ◌&&◌, ltb, All, List, [], ◌∷◌, none, some, Option-cases, ◌≡◌, refl, sym,
  ap, ◌∙◌, inl, inr, Bool-cases, arith,
}
use barista_sh.Journal.Table.{find, update, delete, count, delete-none, count-delete, All-delete}
use barista_sh.Capsule.Rows.{CapsuleStorage, CapsuleRow, ObjectRef, Registry, of_capsule, of_digest}
use barista_sh.Capsule.Registry.{
  register_capsule, delete_capsule, is_collectable, finalize_object_gc, capsule_tier_rank,
}
use barista_sh.Capsule.Counting.{
  total, named, mentions, Unique, Marked, total-take_references, take_references-Unique,
  take_references-Marked,
}
use barista_sh.Capsule.Releasing.{
  drop_references-total, drop_references-Unique, drop_references-Marked,
}

pub record Counted (g : Registry) : Type 0 where
  pub unique : Unique g.refs
  pub marked : All Marked g.refs
  pub one_capsule : (id : String) → count (of_capsule id) g.capsules ≤ 1
  pub counted : (d : String) → total d g.refs ≡ mentions d g.capsules

-- One call of a method that writes, in any order.
pub data Call (g : Registry) : Registry → Type 0 where
  registers : (row : CapsuleRow) → Call g (register_capsule row g).1
  deletes : (id : String) → Call g (delete_capsule id g)
  finalizes : (d : String) → Call g (finalize_object_gc d g)

abbrev pub empty_registry : Registry
empty_registry = record { capsules = []; refs = []; snapshot_ids = [] }

pub data Arrived : Registry → Type 0 where
  begins : Arrived empty_registry
  calls : {g h : Registry} → Arrived g → Call g h → Arrived h

mentions-update :
    (d : String) (p : CapsuleRow → Bool) (s : CapsuleStorage) (cs : List CapsuleRow)
    → mentions d (update p (λ r. record r { storage = s }) cs) ≡ mentions d cs
mentions-update d p s [] = refl
mentions-update d p s (c ∷ cs) = ground (arith, mentions-update d p s cs)

count-storage :
    (id : String) (p : CapsuleRow → Bool) (s : CapsuleStorage) (cs : List CapsuleRow)
    → count (of_capsule id) (update p (λ r. record r { storage = s }) cs) ≡ count (of_capsule id) cs
count-storage id p s [] = refl
count-storage id p s (c ∷ cs) = ground (arith, count-storage id p s cs)

pub find-zero : {Row : Type 0} (p : Row → Bool) (rs : List Row) → find p rs ≡ none → count p rs ≡ 0
find-zero p [] e = refl
find-zero p (r ∷ rs) e = ground (arith, find-zero p rs)

registered-Counted :
    (row : CapsuleRow) (g : Registry) → Counted g → Counted (register_capsule row g).1
unfolding register_capsule
registered-Counted row g c = elim (Option-cases (find (of_capsule row.capsule_id) g.capsules)) [
  | inl n ↦
      rw (n, register_capsule)
        (record {
          unique = take_references-Unique row.manifest.objects g.refs c.unique;
          marked = take_references-Marked row.manifest.objects g.refs c.marked;
          one_capsule = λ id. elim (Bool-cases (str_eq row.capsule_id id)) [
            | inl e ↦ ground (
              arith,
              e,
              find-zero (of_capsule row.capsule_id) g.capsules n,
              ap (λ x. count (of_capsule x) g.capsules) ((eq_iff row.capsule_id id).0 e),
            )
            | inr e ↦ ground (arith, e, c.one_capsule id)
          ];
          counted = λ d.
              ground
                (arith, c.counted d, total-take_references d row.manifest.objects g.refs c.unique);
        })
  | inr (old, n) ↦
      elim (Bool-cases (ltb (capsule_tier_rank old.storage) (capsule_tier_rank row.storage))) [
        | inl b ↦
            rw (n, register_capsule, b)
              (record {
                unique = c.unique;
                marked = c.marked;
                one_capsule = λ id. omega (
                  arith,
                  c.one_capsule id,
                  count-storage id (of_capsule row.capsule_id) row.storage g.capsules,
                );
                counted = λ d.
                    c.counted d
                    ∙ sym (mentions-update d (of_capsule row.capsule_id) row.storage g.capsules);
              })
        | inr b ↦ rw (n, register_capsule, b) c
      ]
]

mentions-delete :
    (d id : String) (cs : List CapsuleRow) (row : CapsuleRow)
    → count (of_capsule id) cs ≤ 1
    → find (of_capsule id) cs ≡ some row
    → mentions d (delete (of_capsule id) cs) + named d row.manifest.objects ≡ mentions d cs
mentions-delete d id [] row u e = absurd cc
mentions-delete d id (c ∷ cs) row u e = elim (Bool-cases (of_capsule id c)) [
  | inl b ↦ rw b (
      omega (
        arith,
        ap (λ x. mentions d x) (delete-none (of_capsule id) cs (ground (arith, b))),
        ap (λ (x : CapsuleRow). named d x.manifest.objects) (found_first b),
      ))
  | inr b ↦
      rw b (omega (arith, mentions-delete d id cs row (ground (arith, b)) (ground (arith, b))))
]
  where
    found_first : of_capsule id c ≡ true → c ≡ row
    found_first b = ground (arith, b)

deleted-Counted : (id : String) (g : Registry) → Counted g → Counted (delete_capsule id g)
unfolding delete_capsule
deleted-Counted id g c = elim (Option-cases (find (of_capsule id) g.capsules)) [
  | inl n ↦ rw (n, delete_capsule) c
  | inr (row, n) ↦
      let held = λ (e : String).
        omega-free _ _ _ _ (c.counted e)
          (mentions-delete e id g.capsules row (c.one_capsule id) n) in
      rw (n, delete_capsule)
        (record {
          unique = drop_references-Unique row.manifest.objects g.refs c.unique;
          marked = drop_references-Marked row.manifest.objects g.refs c.unique held c.marked;
          one_capsule = λ i.
              omega
                (arith, c.one_capsule i, count-delete (of_capsule i) (of_capsule id) g.capsules);
          counted = λ d. omega (
            arith,
            c.counted d,
            mentions-delete d id g.capsules row (c.one_capsule id) n,
            drop_references-total d row.manifest.objects g.refs c.unique held,
          );
        })
]
  where
    omega-free : (a b m n : ℕ) → a ≡ m → b + n ≡ m → n ≤ a
    omega-free a b m n p q = omega arith

total-finalized :
    (d e : String) (refs : List ObjectRef)
    → total d (delete (λ r. of_digest e r && is_collectable r) refs) ≡ total d refs
total-finalized d e [] = refl
total-finalized d e (r ∷ refs) = ground (arith, total-finalized d e refs)

finalized-Counted : (d : String) (g : Registry) → Counted g → Counted (finalize_object_gc d g)
unfolding finalize_object_gc
finalized-Counted d g c = record {
  unique = λ e. omega (
    arith,
    c.unique e,
    count-delete (of_digest e) (λ r. of_digest d r && is_collectable r) g.refs,
  );
  marked = All-delete Marked (λ r. of_digest d r && is_collectable r) g.refs c.marked;
  one_capsule = c.one_capsule;
  counted = λ e. total-finalized e d g.refs ∙ c.counted e;
}

-- In every registry that registrations, deletions and collections reach from an empty one, no
-- capsule and no object has two rows; an object's references are exactly the times that manifests of live capsules name it; an object with
-- a reference is verified and not marked for collection, one without is marked.
pub Arrived-Counted : {g : Registry} → Arrived g → Counted g
Arrived-Counted begins = record {
  unique = λ d. omega arith;
  marked = tt;
  one_capsule = λ id. omega arith;
  counted = λ d. refl;
}
Arrived-Counted (calls {g = g} a (registers row)) = registered-Counted row g (Arrived-Counted a)
Arrived-Counted (calls {g = g} a (deletes id)) = deleted-Counted id g (Arrived-Counted a)
Arrived-Counted (calls {g = g} a (finalizes d)) = finalized-Counted d g (Arrived-Counted a)
