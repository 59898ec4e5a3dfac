-- ===== src/Fleet/Program.antt =====
-- An `async` function of crates/barista-fleet/src/lease.rs as the requests that it makes of the
-- object store, in order: each `.await` on the store is one request with its reply, between which
-- other tasks run. `?` is the bind, which stops at an error.
use Prim.Native.String.{String}
use barista_sh.Base.{Option, some, ◌≡◌}
use barista_sh.Fleet.Record.{Lease, Error, Res, ok, err}

module _ (Body Version : Type 0) where
  -- `PutMode`, as far as this code uses it.
  pub data PutMode : Type 0 where
    create : PutMode
    update : Version → PutMode

  -- `ObjectStore::get` with the body read, and `put_opts`, each with the errors told apart.
  pub data GetReply : Type 0 where
    found : Body → Version → GetReply
    not_found : GetReply
    get_error : GetReply

  pub data PutReply : Type 0 where
    stored : Version → PutReply
    already_exists : PutReply
    precondition : PutReply
    put_error : PutReply

  pub data Prog (A : Type 0) : Type 0 where
    done : A → Prog A
    get : String → (GetReply → Prog A) → Prog A
    put : String → Body → PutMode → (PutReply → Prog A) → Prog A

module _ {Body Version : Type 0} where
  abbrev pub bind :
      {A C : Type 0}
      → Prog Body Version (Res A)
      → (A → Prog Body Version (Res C))
      → Prog Body Version (Res C)
  bind (done (ok a)) f = f a
  bind (done (err e)) f = done (err e)
  bind (get p k) f = get p (λ r. bind (k r) f)
  bind (put p b m k) f = put p b m (λ r. bind (k r) f)

  infixl 5 ◌>>=◌ ◌>>◌
  abbrev pub ◌>>=◌ :
      {A C : Type 0}
      → Prog Body Version (Res A)
      → (A → Prog Body Version (Res C))
      → Prog Body Version (Res C)
  m >>= f = bind m f

  abbrev pub ◌>>◌ :
      {C : Type 0}
      → Prog Body Version (Res (Unit {0}))
      → Prog Body Version (Res C)
      → Prog Body Version (Res C)
  m >> k = bind m (λ _. k)

  abbrev pub pure : {A : Type 0} → A → Prog Body Version (Res A)
  pure a = done (ok a)

  abbrev pub throw : {A : Type 0} → Error → Prog Body Version (Res A)
  throw e = done (err e)

  abbrev pub lift : {A : Type 0} → Res A → Prog Body Version (Res A)
  lift r = done r

-- What this code uses of `serde_json` and of `Path::from`: a body that was written reads back as
-- the record it was written from.
pub record Wire (Body : Type 0) : Type 0 where
  pub to_vec : Lease → Option Body
  pub from_slice : Body → Option Lease
  pub path_from : String → String
  pub reads_back : (l : Lease) (b : Body) → to_vec l ≡ some b → from_slice b ≡ some l
