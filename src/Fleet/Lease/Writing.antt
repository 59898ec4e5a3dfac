-- ===== src/Fleet/Lease/Writing.antt =====
-- What one conditional write of a session record (the `put` of crates/barista-fleet/src/lease.rs)
-- leaves in the store.
use Prim.Native.String.{String}
use mathlib.Core.Path.{subst}
use barista_sh.Base.{Option, none, some, ◌≡◌, refl}
use barista_sh.Fleet.Record.{Lease, Error, ok, err}
use barista_sh.Fleet.Program.{PutMode, PutReply, done, put, bind, Wire}
use barista_sh.Fleet.Backend.{Backend, Admits, Exec}
use barista_sh.Fleet.Lease.{session_key, written, put_lease}

module _ {Body Version : Type 0} (wire : Wire Body) (backend : Backend Body Version)
    (name : String) where
  -- What is stored under the name, if anything.
  abbrev pub object : backend.Store → Option (Body × Version)
  object s = backend.lookup s (session_key wire name)

  -- The object is this record, with its version.
  abbrev pub Holds : Option (Body × Version) → Lease → Version → Type 0
  Holds o l v = (b : Body) × (wire.from_slice b ≡ some l) × (o ≡ some (b, v))

  -- A write of `l` in mode `m` that ended with `o`.
  abbrev pub Wrote :
      Lease → PutMode Body Version → backend.Store → Option Version → backend.Store → Type 0
  Wrote l m s (some v) t =
      Holds (object t) l v × Admits (backend.lookup s (session_key wire name)) m
  Wrote l m s none t = (object t ≡ object s)

  -- A write of `l` in mode `m` whose answer goes to `f`, run to a result that is no error.
  pub put_lease_outcome :
      {R : Type 0} (f : Option Version → R) (l : Lease) (m : PutMode Body Version)
      (s t : backend.Store) (a : R)
      → Exec backend s
          (bind (put_lease wire (session_key wire name) l m) (λ o. done (ok (f o))))
          (ok a)
          t
      → (o : Option Version) × (f o ≡ a) × Wrote l m s o t
  unfolding put_lease written
  put_lease_outcome f l m s t a x = go (wire.to_vec l) refl x
    where
      go :
          (w : Option Body)
          → wire.to_vec l ≡ w
          → Exec backend s
              (bind
                (elim w [
                  | none ↦ done (err Error.encode)
                  | some b ↦ put (session_key wire name) b m (written wire)
                ])
                (λ o. done (ok (f o))))
              (ok a)
              t
          → (o : Option Version) × (f o ≡ a) × Wrote l m s o t
      go none e x = absurd (cc (x.0))
      go (some b) e (PutReply.stored v, u, p, q) =
          let (ad, now) = backend.puts_stored s u _ b m v p in
          (
            some v,
            cc (q.0),
            (
              (
                b,
                wire.reads_back l b e,
                subst (λ z. backend.lookup z (session_key wire name) ≡ some (b, v)) q.1 now,
              ),
              ad,
            ),
          )
      go (some b) e (PutReply.already_exists, u, p, q) = (
        none,
        cc (q.0),
        subst (λ z. object z ≡ object s) q.1
            (backend.puts_refused s u _ b m PutReply.already_exists tt p),
      )
      go (some b) e (PutReply.precondition, u, p, q) = (
        none,
        cc (q.0),
        subst (λ z. object z ≡ object s) q.1
            (backend.puts_refused s u _ b m PutReply.precondition tt p),
      )
      go (some b) e (PutReply.put_error, u, p, q) = absurd (cc (q.0))
