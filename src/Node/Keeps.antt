-- ===== src/Node/Keeps.antt =====
-- What holds along every run of a process, whatever the database, the runtime and the guest answer,
-- and whatever fails: a condition on its writes, one on its calls, and one on its result.
use barista_sh.Base.{Bool, true, false, Option, none, some, if◌then◌else◌, ◌≡◌, refl}
use barista_sh.Journal.Snapshots.{Db}
use barista_sh.Node.Runtime.{Call, Reply, RuntimeError, Answer, ok, err}
use barista_sh.Node.Process.{Proc, done, look, write, call, notify, bind, query}

module _ (W : (R : Type 0) → (Db → Option R × Db) → Type 0) (C : Call → Type 0) where
  abbrev pub Keeps : {A : Type 0} → (A → Type 0) → Proc A → Type 0
  Keeps Q (done a) = Q a
  Keeps Q (look k) = (r : Option Db) → Keeps Q (k r)
  Keeps Q (write {R} w k) = W R w × ((r : Option R) → Keeps Q (k r))
  Keeps Q (call c k) = C c × ((r : Reply c) → Keeps Q (k r))
  Keeps Q (notify n p) = Keeps Q p

  abbrev pub Safe : {A : Type 0} → Proc A → Type 0
  Safe p = Keeps (λ _. Unit) p

  -- A sequence: what the first part's result satisfies may be used in the second.
  pub after :
      {A B : Type 0} (P : A → Type 0) (Q : B → Type 0) (p : Proc A) (f : A → Proc B)
      → Keeps P p
      → ((a : A) → P a → Keeps Q (f a))
      → Keeps Q (bind p f)
  after P Q (done a) f h g = g a h
  after P Q (look k) f h g = λ r. after P Q (k r) f (h r) g
  after P Q (write w k) f h g = (h.0, λ r. after P Q (k r) f (h.1 r) g)
  after P Q (call c k) f h g = (h.0, λ r. after P Q (k r) f (h.1 r) g)
  after P Q (notify n p) f h g = after P Q p f h g

  pub seq :
      {A B : Type 0} (Q : B → Type 0) (p : Proc A) (f : A → Proc B)
      → Safe p
      → ((a : A) → Keeps Q (f a))
      → Keeps Q (bind p f)
  seq Q p f h g = after (λ _. Unit) Q p f h (λ a _. g a)

  pub when :
      {A : Type 0} (Q : A → Type 0) (b : Bool) (p q : Proc A)
      → (b ≡ true → Keeps Q p)
      → (b ≡ false → Keeps Q q)
      → Keeps Q (if b then p else q)
  when Q true p q h g = h refl
  when Q false p q h g = g refl

  pub optional :
      {X A : Type 0} (Q : A → Type 0) (f : X → Proc A) (p : Proc A) (o : Option X)
      → Keeps Q p
      → ((x : X) → Keeps Q (f x))
      → Keeps Q (elim o [ none ↦ p | some x ↦ f x ])
  optional Q f p none h g = h
  optional Q f p (some x) h g = g x

  pub answered :
      {X A : Type 0} (Q : A → Type 0) (f : X → Proc A) (g : RuntimeError → Proc A) (a : Answer X)
      → ((x : X) → Keeps Q (f x))
      → ((e : RuntimeError) → Keeps Q (g e))
      → Keeps Q (elim a [ ok x ↦ f x | err e ↦ g e ])
  answered Q f g (ok x) h k = h x
  answered Q f g (err e) h k = k e

  pub reading :
      {X A : Type 0} (Q : A → Type 0) (q : Db → X) (k : Option X → Proc A)
      → ((o : Option X) → Keeps Q (k o))
      → Keeps Q (bind (query q) k)
  reading Q q k h none = h none
  reading Q q k h (some d) = h (some (q d))
