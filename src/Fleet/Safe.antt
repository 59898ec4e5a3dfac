-- ===== src/Fleet/Safe.antt =====
-- What a program on one session name may write, given the history of the name's records. The programs are those of
-- crates/barista-fleet/src/lease.rs.
use Prim.Native.String.{String}
use barista_sh.Base.{some, In, ◌≡◌}
use barista_sh.Fleet.Record.{Lease, Error, Res, ok, err, Held, Acquired, Renewed}
use barista_sh.Fleet.Program.{PutMode, GetReply, PutReply, Prog, done, get, put, bind, Wire}
use barista_sh.Fleet.History.{Writes, Follows, Extends}

module _ {Body Version : Type 0} (wire : Wire Body) (path : String) where
  -- What a read may answer: a record of the history, if any.
  abbrev pub Shows : Writes Version → GetReply Body Version → Type 0
  Shows h (GetReply.found b v) = (l : Lease) × (wire.from_slice b ≡ some l) × In (l, v) h
  Shows h GetReply.not_found = Unit
  Shows h GetReply.get_error = Unit

  abbrev pub Records : Writes Version → Lease → PutReply Body Version → Type 0
  Records h l (PutReply.stored v) = In (l, v) h
  Records h l _ = Unit

  -- A first record has epoch 1; a later one follows the record whose version fences it.
  abbrev pub IsLegal : Writes Version → PutMode Body Version → Lease → Type 0
  IsLegal h PutMode.create l = l.epoch ≡ 1
  IsLegal h (PutMode.update v) l = (prev : Lease) × In (prev, v) h × Follows prev l

  -- Whatever other tasks write meanwhile, each write is legal and the result is as promised.
  abbrev pub Safe :
      {A : Type 0} → (Writes Version → A → Type 0) → Prog Body Version A → Writes Version → Type 0
  Safe Post (done a) h = Post h a
  Safe Post (get p k) h =
      (p ≡ path)
      × ((g : Writes Version) (r : GetReply Body Version)
          → Extends h g
          → Shows g r
          → Safe Post (k r) g)
  Safe Post (put p b m k) h =
      (p ≡ path)
      × (l : Lease) × (wire.to_vec l ≡ some b)
      × IsLegal h m l
      × ((g : Writes Version) (r : PutReply Body Version)
          → Extends h g
          → Records g l r
          → Safe Post (k r) g)

  pub Safe-mono :
      {A : Type 0} (Post : Writes Version → A → Type 0)
      → ((h g : Writes Version) (a : A) → Extends h g → Post h a → Post g a)
      → (p : Prog Body Version A) (h g : Writes Version) → Extends h g
      → Safe Post p h
      → Safe Post p g
  Safe-mono Post up (done a) h g x s = up h g a x s
  Safe-mono Post up (get p k) h g x s = (s.0, λ f r y. s.1 f r (λ z i. y z (x z i)))
  Safe-mono Post up (put p b PutMode.create k) h g x s =
      (s.0, s.1, s.2, s.3, λ f r y. s.4 f r (λ z i. y z (x z i)))
  Safe-mono Post up (put p b (PutMode.update v) k) h g x s =
      (s.0, s.1, s.2, (s.3.0, x _ s.3.1, s.3.2), λ f r y. s.4 f r (λ z i. y z (x z i)))

  pub Safe-bind :
      {A C : Type 0} (Mid : Writes Version → Res A → Type 0)
      (Post : Writes Version → Res C → Type 0) (m : Prog Body Version (Res A))
      (f : A → Prog Body Version (Res C)) (h : Writes Version)
      → Safe Mid m h
      → ((g : Writes Version) (a : A) → Extends h g → Mid g (ok a) → Safe Post (f a) g)
      → ((g : Writes Version) (e : Error) → Post g (err e))
      → Safe Post (bind m f) h
  Safe-bind Mid Post (done (ok a)) f h s next fails = next h a (λ z i. i) s
  Safe-bind Mid Post (done (err e)) f h s next fails = fails h e
  Safe-bind Mid Post (get p k) f h s next fails = (
    s.0,
    λ g r x y.
        Safe-bind Mid Post (k r) f g (s.1 g r x y) (λ g' a x'. next g' a (λ z i. x' z (x z i)))
          fails,
  )
  Safe-bind Mid Post (put p b m k) f h s next fails = (
    s.0,
    s.1,
    s.2,
    s.3,
    λ g r x y.
        Safe-bind Mid Post (k r) f g (s.4 g r x y) (λ g' a x'. next g' a (λ z i. x' z (x z i)))
          fails,
  )

-- The evidence of ownership that an operation ends with, if it succeeds.
module _ {Version : Type 0} where
  abbrev pub Owned : Writes Version → Held Version → Type 0
  Owned h held = In (held.lease, held.version) h

  abbrev pub Claims : Writes Version → Res (Acquired Version) → Type 0
  Claims h (ok (Acquired.held a)) = Owned h a
  Claims h _ = Unit

  abbrev pub Keeps : Writes Version → Res (Renewed Version) → Type 0
  Keeps h (ok (Renewed.held a)) = Owned h a
  Keeps h _ = Unit
