-- ===== src/Reconcile/Vanished/Exact.antt =====
-- The counts of `reconcile_vanished_sandboxes` (crates/barista-node-agent/src/reconcile.rs) below
-- their threshold.
use Prim.Native.String.{String}
use text.Mathlib.Text.{◌==◌ as str_eq}
use text.Mathlib.TextPositions.{eq_refl}
use mathlib.Core.Path.{subst}
use barista_sh.Base.{
  suc, ◌≤◌, true, false, not, ◌&&◌, Bool-cases, Option, none, some, List, [], ◌∷◌, ◌≡◌, inl, inr,
  refl, sym, ap, ◌∙◌, arith,
}
use barista_sh.Node.Runtime.{Call}
use barista_sh.Reconcile.Vanished.{contains, Counts, misses, forget, retain, counted_one}
use barista_sh.Reconcile.Vanished.Counting.{
  Pass, seen, streak, counted, Distinct, Followed, begins, goes_on, same, next_counts, pass-counts,
  seen-Distinct, misses-streak, kept_by,
}

forget_other :
    (i id : String) (counts : Counts)
    → str_eq id i ≡ false
    → misses i (forget id counts) ≡ misses i counts
forget_other i id [] e = refl
forget_other i id ((j, n) ∷ rest) e = elim (Bool-cases (str_eq j id)) [
  | inl t ↦
      let apart : str_eq j i ≡ false = subst (λ z. str_eq z i ≡ false) (sym (same j id t)) e in
      ground (arith, forget_other i id rest e, t, apart)
  | inr f ↦ ground (arith, forget_other i id rest e, f)
]

pub retain_in :
    (i : String) (ids : List String) (counts : Counts)
    → contains i ids ≡ true
    → misses i (retain ids counts) ≡ misses i counts
retain_in i ids [] e = refl
retain_in i ids ((j, n) ∷ rest) e = elim (Bool-cases (str_eq j i)) [
  | inl t ↦
      let stays : contains j ids ≡ true = subst (λ z. contains z ids ≡ true) (sym (same j i t)) e in
      ground (arith, retain_in i ids rest e, stays, t)
  | inr f ↦ ground (arith, retain_in i ids rest e, f)
]

pub one_other :
    (present : List String) (i id : String) (counts : Counts)
    → str_eq id i ≡ false
    → misses i (counted_one present id counts) ≡ misses i counts
one_other present i id counts e = ground (arith, forget_other i id counts e, e)

one_same :
    (present : List String) (id : String) (counts : Counts)
    → contains id present ≡ false
    → misses id counts ≤ 1
    → misses id (counted_one present id counts) ≡ suc (misses id counts)
one_same present id counts out few = ground (arith, eq_refl id, out, few)

counted_outside :
    (present ids : List String) (i : String) (counts : Counts)
    → contains i ids ≡ false
    → misses i (counted present ids counts) ≡ misses i counts
counted_outside present [] i counts e = refl
counted_outside present (id ∷ ids) i counts e = ground (
  arith,
  e,
  one_other present i id counts,
  counted_outside present ids i (counted_one present id counts),
)

counted_missing :
    (present ids : List String) (i : String) (counts : Counts)
    → Distinct ids
    → contains i ids ≡ true
    → contains i present ≡ false
    → misses i counts ≤ 1
    → misses i (counted present ids counts) ≡ suc (misses i counts)
counted_missing present [] i counts d e out few = absurd cc
counted_missing present (id ∷ ids) i counts (fresh, d) e out few = elim (Bool-cases (str_eq id i)) [
  | inl t ↦
      subst
        (λ z.
          contains z present ≡ false
          → misses z counts ≤ 1
          → misses z (counted present ids (counted_one present id counts)) ≡ suc (misses z counts))
        (same id i t)
        (λ out few.
          counted_outside present ids id (counted_one present id counts) fresh
          ∙ one_same present id counts out few)
        out few
  | inr f ↦
      let other = one_other present i id counts f in
      counted_missing present ids i (counted_one present id counts) d (ground (arith, e, f)) out
        (omega (arith, other, few))
      ∙ ap (λ n. suc n) other
]

exact_next :
    (i : String) (o : Option Pass) (ps : List (Option Pass)) (counts : Counts)
    → ((p : Pass) → o ≡ some p → Distinct p.running)
    → misses i counts ≤ streak i ps
    → (streak i ps ≤ 2 → misses i counts ≡ streak i ps)
    → misses i (next_counts o counts) ≤ streak i (o ∷ ps)
    → streak i (o ∷ ps) ≤ 2
    → misses i (next_counts o counts) ≡ streak i (o ∷ ps)
exact_next i none ps counts d le h bound few = h few
exact_next i (some p) ps counts d le h bound few =
    elim (Bool-cases (contains i p.running && not (contains i p.present))) [
      | inl t ↦
          let within : contains i p.running ≡ true = ground (arith, t) in
          let out : contains i p.present ≡ false = ground (arith, t) in
          let now : streak i (some p ∷ ps) ≡ suc (streak i ps) = ground (arith, t) in
          let before = h (omega (arith, now, few)) in
          let left = retain_in i p.running counts within in
          counted_missing p.present p.running i (retain p.running counts) (d p refl) within out
            (omega (arith, left, before, now, few))
          ∙ ap (λ n. suc n) (left ∙ before)
          ∙ sym now
      | inr f ↦
          let now : streak i (some p ∷ ps) ≡ 0 = ground (arith, f) in omega (arith, now, bound)
    ]

-- After some number of passes an instance that was missed less than three times in a row is counted
-- exactly.
pub misses-streak_exact :
    (i : String) (ps : List (Option Pass)) (counts : Counts)
    → Followed ps counts
    → streak i ps ≤ 2
    → misses i counts ≡ streak i ps
misses-streak_exact i _ _ begins few = refl
misses-streak_exact i _ _ (goes_on {ps = ps} {counts = counts} cfg now answers d h f) few =
    let o = seen cfg (answers Call.list_sandboxes) d in
    let apart : (p : Pass) → o ≡ some p → Distinct p.running =
      λ p s. seen-Distinct cfg (answers Call.list_sandboxes) d p h s in
    ap (λ c. misses i c) (pass-counts cfg now counts answers d)
    ∙ exact_next i o ps counts apart (misses-streak i ps counts f)
        (misses-streak_exact i ps counts f)
        (kept_by i o ps counts apart (misses-streak i ps counts f)) few
