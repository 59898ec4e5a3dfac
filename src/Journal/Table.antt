-- ===== src/Journal/Table.antt =====
-- Tables of crates/barista-node-agent/src/db.rs as lists of rows, and what its SQL statements do
-- to them: SELECT of one row, SELECT COUNT(*), UPDATE … WHERE, and INSERT under a constraint.
use barista_sh.Base.{
  ℕ, suc, ◌≤◌, Bool, true, false, ◌&&◌, List, [], ◌∷◌, Option, none, some, ◌≡◌, ◌≢◌, All, any,
  if◌then◌else◌, refl, arith, Bool-cases, inl, inr,
}
use mathlib.Core.Path.{subst}

module _ {Row : Type 0} where
  abbrev pub find : (Row → Bool) → List Row → Option Row
  find p [] = none
  find p (r ∷ rs) = if p r then some r else find p rs

  abbrev pub count : (Row → Bool) → List Row → ℕ
  count p [] = 0
  count p (r ∷ rs) = if p r then suc (count p rs) else count p rs

  abbrev pub update : (Row → Bool) → (Row → Row) → List Row → List Row
  update p f [] = []
  update p f (r ∷ rs) = (if p r then f r else r) ∷ update p f rs

  -- A row that clashes with a stored one in a unique column is refused.
  abbrev pub insert : (Row → Bool) → Row → List Row → Option (List Row)
  insert clashes r rs = if any clashes rs then none else some (r ∷ rs)

  -- DELETE … WHERE
  abbrev pub delete : (Row → Bool) → List Row → List Row
  delete p [] = []
  delete p (r ∷ rs) = if p r then delete p rs else r ∷ delete p rs

  pub count-update :
      (q p : Row → Bool) (f : Row → Row) (rs : List Row)
      → ((r : Row) → q (f r) ≡ true → q r ≡ true)
      → count q (update p f rs) ≤ count q rs
  count-update q p f [] h = omega arith
  count-update q p f (r ∷ rs) h = ground (arith, h r, count-update q p f rs h)

  pub All-update :
      (P : Row → Type 0) (p : Row → Bool) (f : Row → Row) (rs : List Row)
      → ((r : Row) → p r ≡ true → P r → P (f r))
      → All P rs
      → All P (update p f rs)
  All-update P p f [] h a = tt
  All-update P p f (r ∷ rs) h (x, a) = (go (p r) refl, All-update P p f rs h a)
    where
      go : (b : Bool) → p r ≡ b → P (if b then f r else r)
      go true e = h r e x
      go false e = x

  -- An update that no row matches writes nothing.
  pub update-none :
      (p : Row → Bool) (f : Row → Row) (rs : List Row) → count p rs ≡ 0 → update p f rs ≡ rs
  update-none p f [] e = refl
  update-none p f (r ∷ rs) e = ground (arith, update-none p f rs)

  pub find-none : (p : Row → Bool) (rs : List Row) → count p rs ≡ 0 → find p rs ≡ none
  find-none p [] e = refl
  find-none p (r ∷ rs) e = ground (arith, find-none p rs)

  pub find-passes : (p : Row → Bool) (rs : List Row) (r : Row) → find p rs ≡ some r → p r ≡ true
  find-passes p [] r e = absurd cc
  find-passes p (x ∷ rs) r e = ground (arith, find-passes p rs r)

  pub find-All :
      (P : Row → Type 0) (p : Row → Bool) (rs : List Row) (r : Row)
      → All P rs
      → find p rs ≡ some r
      → P r
  find-All P p [] r a e = absurd cc
  find-All P p (x ∷ rs) r (h, a) e = elim (Bool-cases (p x)) [
    | inl k ↦ subst P (ground arith) h
    | inr k ↦ find-All P p rs r a (ground arith)
  ]

  -- What a key finds after an update: the row as the update leaves it.
  pub find-update :
      (k p : Row → Bool) (f : Row → Row) (rs : List Row)
      → ((r : Row) → k (f r) ≡ k r)
      → find k (update p f rs)
        ≡ elim (find k rs) [ none ↦ none | some r ↦ some (if p r then f r else r) ]
  find-update k p f [] h = refl
  find-update k p f (r ∷ rs) h = ground (arith, h r, find-update k p f rs h)

  -- The rows may be assumed to satisfy `Q` as well.
  pub All-update-under :
      (P Q : Row → Type 0) (p : Row → Bool) (f : Row → Row) (rs : List Row)
      → ((r : Row) → p r ≡ true → Q r → P r → P (f r))
      → All Q rs
      → All P rs
      → All P (update p f rs)
  All-update-under P Q p f [] h b a = tt
  All-update-under P Q p f (r ∷ rs) h (y, b) (x, a) = (
    elim (Bool-cases (p r)) [
      | inl e ↦ subst P (picked (p r) (f r) r e) (h r e y x)
      | inr e ↦ subst P (passed (p r) (f r) r e) x
    ],
    All-update-under P Q p f rs h b a,
  )
    where
      picked : (b : Bool) (x y : Row) → b ≡ true → x ≡ (if b then x else y)
      picked true x y e = refl
      picked false x y e = cc

      passed : (b : Bool) (x y : Row) → b ≡ false → y ≡ (if b then x else y)
      passed false x y e = refl
      passed true x y e = cc

  none-hit : (p : Row → Bool) (rs : List Row) → count p rs ≡ 0 → All (λ r. p r ≡ false) rs
  none-hit p [] e = tt
  none-hit p (r ∷ rs) e = (ground arith, none-hit p rs (ground arith))

  pub All-weaken :
      (P Q : Row → Type 0) (rs : List Row) → ((r : Row) → P r → Q r) → All P rs → All Q rs
  All-weaken P Q [] h a = tt
  All-weaken P Q (r ∷ rs) h (x, a) = (h r x, All-weaken P Q rs h a)

  -- Where one row at most passes, that row is the one found.
  pub only-hit :
      (p : Row → Bool) (rs : List Row) (x : Row)
      → count p rs ≤ 1
      → find p rs ≡ some x
      → All (λ r. p r ≡ true → r ≡ x) rs
  only-hit p [] x c e = tt
  only-hit p (r ∷ rs) x c e = elim (Bool-cases (p r)) [
    | inl k ↦ (
      λ h. ground arith,
      All-weaken (λ r. p r ≡ false) (λ r. p r ≡ true → r ≡ x) rs (λ r f t. cc)
          (none-hit p rs (ground arith)),
    )
    | inr k ↦ (λ h. cc, only-hit p rs x (ground arith) (ground arith))
  ]

  pub count-update-under :
      (Q : Row → Type 0) (q p : Row → Bool) (f : Row → Row) (rs : List Row)
      → ((r : Row) → Q r → q (f r) ≡ true → q r ≡ true)
      → All Q rs
      → count q (update p f rs) ≤ count q rs
  count-update-under Q q p f [] h a = omega arith
  count-update-under Q q p f (r ∷ rs) h (x, a) =
      ground (arith, h r x, count-update-under Q q p f rs h a)

  -- A predicate that holds on every row once the update has passed over it.
  pub All-update-to :
      (P Q : Row → Type 0) (p : Row → Bool) (f : Row → Row) (rs : List Row)
      → ((r : Row) → p r ≡ true → P r → Q (f r))
      → ((r : Row) → p r ≡ false → P r → Q r)
      → All P rs
      → All Q (update p f rs)
  All-update-to P Q p f [] hit miss a = tt
  All-update-to P Q p f (r ∷ rs) hit miss (x, a) = (
    elim (Bool-cases (p r)) [ inl e ↦ rw e (hit r e x) | inr e ↦ rw e (miss r e x) ],
    All-update-to P Q p f rs hit miss a,
  )

  pub All-zip : (P Q : Row → Type 0) (rs : List Row) → All P rs → All Q rs → All (λ r. P r × Q r) rs
  All-zip P Q [] a b = tt
  All-zip P Q (r ∷ rs) (x, a) (y, b) = ((x, y), All-zip P Q rs a b)

  pub All-count : (p : Row → Bool) (rs : List Row) → All (λ r. p r ≡ false) rs → count p rs ≡ 0
  All-count p [] a = refl
  All-count p (r ∷ rs) (x, a) = ground (arith, x, All-count p rs a)

  count-guarded-zero :
      (k g : Row → Bool) (rs : List Row) → count k rs ≡ 0 → count (λ x. k x && g x) rs ≡ 0
  count-guarded-zero k g [] e = refl
  count-guarded-zero k g (r ∷ rs) e = ground (arith, count-guarded-zero k g rs)

  pub count-guarded-none :
      (k g : Row → Bool) (rs : List Row) → find k rs ≡ none → count (λ x. k x && g x) rs ≡ 0
  count-guarded-none k g [] e = refl
  count-guarded-none k g (r ∷ rs) e = ground (arith, count-guarded-none k g rs)

  -- How many rows with a unique key pass a guard.
  pub count-guarded :
      (k g : Row → Bool) (rs : List Row) (r : Row)
      → count k rs ≤ 1
      → find k rs ≡ some r
      → count (λ x. k x && g x) rs ≡ (if g r then 1 else 0)
  count-guarded k g [] r c e = absurd cc
  count-guarded k g (x ∷ rs) r c e = elim (Bool-cases (k x)) [
    | inl b ↦ ground (arith, b, c, e, count-guarded-zero k g rs (ground (arith, b)))
    | inr b ↦ ground (arith, b, count-guarded k g rs r (ground (arith, b)) (ground (arith, b)))
  ]

  -- A row that passes both tests is one that the second finds.
  pub find-hit :
      (p k : Row → Bool) (rs : List Row) (r : Row)
      → find p rs ≡ some r
      → k r ≡ true
      → find k rs ≢ none
  find-hit p k [] r e h n = cc
  find-hit p k (x ∷ rs) r e h n = ground (arith, find-hit p k rs r)

  pub delete-none : (p : Row → Bool) (rs : List Row) → count p rs ≡ 0 → delete p rs ≡ rs
  delete-none p [] e = refl
  delete-none p (r ∷ rs) e = ground (arith, delete-none p rs)

  pub count-delete : (q p : Row → Bool) (rs : List Row) → count q (delete p rs) ≤ count q rs
  count-delete q p [] = omega arith
  count-delete q p (r ∷ rs) = ground (arith, count-delete q p rs)

  pub All-delete :
      (P : Row → Type 0) (p : Row → Bool) (rs : List Row) → All P rs → All P (delete p rs)
  All-delete P p [] a = tt
  All-delete P p (r ∷ rs) (x, a) = elim (Bool-cases (p r)) [
    | inl e ↦ rw e (All-delete P p rs a)
    | inr e ↦ rw e (x, All-delete P p rs a)
  ]
