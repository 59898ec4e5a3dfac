-- ===== src/Fleet/Backend.antt =====
-- What crates/barista-fleet/src/lease.rs relies on of an object store whose conditional writes are
-- atomic (the `object_store` crate over a bucket). A request that ends in an error may or may not
-- have been carried out, and a version may come back, as a content hash does, with its content.
use Prim.Native.String.{String}
use barista_sh.Base.{Option, none, some, ◌≡◌, ◌≢◌, ◌⊎◌}
use barista_sh.Fleet.Program.{PutMode, GetReply, PutReply, Prog, done, get, put}

-- Whether a conditional write may go through over what is stored.
abbrev pub Admits :
    {Body Version : Type 0} → Option (Body × Version) → PutMode Body Version → Type 0
Admits none PutMode.create = Unit
Admits (some _) PutMode.create = ⊥
Admits none (PutMode.update v) = ⊥
Admits (some (b, w)) (PutMode.update v) = w ≡ v

abbrev pub IsRefusal : {Body Version : Type 0} → PutReply Body Version → Type 0
IsRefusal PutReply.already_exists = Unit
IsRefusal PutReply.precondition = Unit
IsRefusal _ = ⊥

pub record Backend (Body Version : Type 0) : Type 1 where
  pub Store : Type 0
  -- the object at a path
  pub lookup : Store → String → Option (Body × Version)
  -- a write that was carried out at some time
  pub Written : Store → String → Body → Version → Type 0
  pub Gets : Store → String → GetReply Body Version → Store → Type 0
  pub Puts : Store → String → Body → PutMode Body Version → PutReply Body Version → Store → Type 0
  pub present_written :
      (s : Store) (p : String) (b : Body) (v : Version) → lookup s p ≡ some (b, v) → Written s p b v
  pub one_body :
      (s : Store) (p : String) (b c : Body) (v : Version)
      → Written s p b v
      → Written s p c v
      → b ≡ c
  pub gets_found :
      (s t : Store) (p : String) (b : Body) (v : Version)
      → Gets s p (GetReply.found b v) t
      → lookup s p ≡ some (b, v)
  pub gets_not_found :
      (s t : Store) (p : String) → Gets s p GetReply.not_found t → lookup s p ≡ none
  pub gets_same :
      (s t : Store) (p : String) (r : GetReply Body Version)
      → Gets s p r t
      → (q : String) → lookup t q ≡ lookup s q
  pub gets_kept :
      (s t : Store) (p : String) (r : GetReply Body Version)
      → Gets s p r t
      → (q : String) (c : Body) (v : Version) → Written s q c v
      → Written t q c v
  pub puts_stored :
      (s t : Store) (p : String) (b : Body) (m : PutMode Body Version) (v : Version)
      → Puts s p b m (PutReply.stored v) t
      → Admits (lookup s p) m × (lookup t p ≡ some (b, v))
  pub puts_refused :
      (s t : Store) (p : String) (b : Body) (m : PutMode Body Version) (r : PutReply Body Version)
      → IsRefusal r
      → Puts s p b m r t
      → lookup t p ≡ lookup s p
  pub puts_error :
      (s t : Store) (p : String) (b : Body) (m : PutMode Body Version)
      → Puts s p b m PutReply.put_error t
      → (lookup t p ≡ lookup s p)
        ⊎ ((v : Version) × Admits (lookup s p) m × (lookup t p ≡ some (b, v)))
  pub puts_elsewhere :
      (s t : Store) (p : String) (b : Body) (m : PutMode Body Version) (r : PutReply Body Version)
      → Puts s p b m r t
      → (q : String) → q ≢ p
      → lookup t q ≡ lookup s q
  pub puts_kept :
      (s t : Store) (p : String) (b : Body) (m : PutMode Body Version) (r : PutReply Body Version)
      → Puts s p b m r t
      → (q : String) (c : Body) (v : Version) → Written s q c v
      → Written t q c v

-- A program run by itself, with no other task's request in between.
module _ {Body Version : Type 0} (backend : Backend Body Version) where
  abbrev pub Exec : {A : Type 0} → backend.Store → Prog Body Version A → A → backend.Store → Type 0
  Exec s (done x) a t = (x ≡ a) × (s ≡ t)
  Exec s (get p k) a t =
      (r : GetReply Body Version) × (u : backend.Store) × backend.Gets s p r u × Exec u (k r) a t
  Exec s (put p b m k) a t =
      (r : PutReply Body Version) × (u : backend.Store) × backend.Puts s p b m r u
      × Exec u (k r) a t

-- A backend that answers: a read shows what is stored, and a write that is admitted goes through.
pub record Responsive (Body Version : Type 0) (backend : Backend Body Version) : Type 0 where
  pub shows :
      (s : backend.Store) (p : String) (b : Body) (v : Version)
      → backend.lookup s p ≡ some (b, v)
      → (t : backend.Store) × backend.Gets s p (GetReply.found b v) t
  pub shows_none :
      (s : backend.Store) (p : String)
      → backend.lookup s p ≡ none
      → (t : backend.Store) × backend.Gets s p GetReply.not_found t
  pub accepts :
      (s : backend.Store) (p : String) (b : Body) (m : PutMode Body Version)
      → Admits (backend.lookup s p) m
      → (v : Version) × (t : backend.Store) × backend.Puts s p b m (PutReply.stored v) t
