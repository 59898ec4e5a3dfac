-- ===== src/Fleet/Cluster/Invariant.antt =====
-- What the history of a session's records and the tasks under way have in common at every moment of
-- a run (crates/barista-fleet/src/lease.rs).
use Prim.Native.String.{String}
use barista_sh.Base.{
  ℕ, ◌≤◌, Option, none, some, List, [], ◌∷◌, length, In, ◌≡◌, ◌⊎◌, inl, inr, refl, sym, ◌∙◌, ap,
}
use mathlib.Core.Path.{subst}
use barista_sh.Fleet.Record.{Lease, Res, ok, err, Held, Acquired, Renewed}
use barista_sh.Fleet.Program.{PutMode, GetReply, Prog, done, bind, Wire}
use barista_sh.Fleet.Lease.{session_key}
use barista_sh.Fleet.Lease.Legal.{
  acquire-Safe, acquire_with_retry-Safe, renew-Safe, stamp_state-Safe, set_instance-Safe,
  release-Safe,
}
use barista_sh.Fleet.Backend.{Backend, Admits}
use barista_sh.Fleet.History.{Writes, Follows, Chain, Extends}
use barista_sh.Fleet.Safe.{Shows, IsLegal, Safe, Safe-bind, Owned, Claims, Keeps}
use barista_sh.Fleet.Cluster.{
  Task, won, kept, Swap, here, there, Starts, acquires, retries, renews, stamps, names_instance,
  releases,
}

pub In-Swap :
    {A : Type 0} {x y : A} {xs ys : List A} (z : A) → Swap x y xs ys → In z ys → (y ≡ z) ⊎ In z xs
In-Swap z here (inl e) = inl e
In-Swap z here (inr m) = inr (inr m)
In-Swap z (there s) (inl e) = inr (inl e)
In-Swap z (there s) (inr m) = elim (In-Swap z s m) [ inl e ↦ inl e | inr i ↦ inr (inr i) ]

pub Swap-In : {A : Type 0} {x y : A} {xs ys : List A} → Swap x y xs ys → In x xs
Swap-In here = inl refl
Swap-In (there s) = inr (Swap-In s)

some_pair :
    {A B : Type 0} {a c : A} {b d : B}
    → ◌≡◌ {A = Option (A × B)} (some (a, b)) (some (c, d))
    → (a ≡ c) × (b ≡ d)
some_pair e = (cc, cc)

module _ {Body Version : Type 0} (wire : Wire Body) (backend : Backend Body Version)
    (name : String) where
  -- What a task ends with is a record of the history.
  abbrev pub Proven : Writes Version → Res (Option (Held Version)) → Type 0
  Proven h (ok (some a)) = Owned h a
  Proven h (ok none) = Unit
  Proven h (err e) = Unit

  -- The newest record of the history is what the store holds.
  abbrev pub Current : Writes Version → backend.Store → Type 0
  Current [] s = backend.lookup s (session_key wire name) ≡ none
  Current ((l, v) ∷ h) s =
      (b : Body) × (wire.to_vec l ≡ some b)
      × (backend.lookup s (session_key wire name) ≡ some (b, v))

  abbrev pub Carried : Writes Version → backend.Store → Type 0
  Carried h s =
      (l : Lease) (v : Version)
      → In (l, v) h
      → (b : Body) × (wire.to_vec l ≡ some b) × backend.Written s (session_key wire name) b v

  pub record Inv (n : ℕ) (s : backend.Store) (ts : List (Task Body Version)) (h : Writes Version)
      : Type 0 where
    pub chain : Chain h
    pub current : Current h s
    pub carried : Carried h s
    pub safe : (p : Task Body Version) → In p ts → Safe wire (session_key wire name) Proven p h
    pub short : length h ≤ n

  pub Proven-up :
      (h g : Writes Version) (r : Res (Option (Held Version)))
      → Extends h g
      → Proven h r
      → Proven g r
  Proven-up h g (ok (some a)) x p = x _ p
  Proven-up h g (ok none) x p = tt
  Proven-up h g (err e) x p = tt

  won-Proven : (g : Writes Version) (a : Acquired Version) → Claims g (ok a) → Proven g (ok (won a))
  won-Proven g (Acquired.held a) c = c
  won-Proven g (Acquired.held_by_other o e) c = tt
  won-Proven g Acquired.contended c = tt

  kept-Proven : (g : Writes Version) (r : Renewed Version) → Keeps g (ok r) → Proven g (ok (kept r))
  kept-Proven g (Renewed.held a) c = c
  kept-Proven g Renewed.fenced c = tt

  acquired-Safe :
      (h : Writes Version) (m : Prog Body Version (Res (Acquired Version)))
      → Safe wire (session_key wire name) Claims m h
      → Safe wire (session_key wire name) Proven (bind m (λ a. done (ok (won a)))) h
  acquired-Safe h m s =
      Safe-bind wire (session_key wire name) Claims Proven m _ h s (λ g a x c. won-Proven g a c)
        (λ g e. tt)

  renewed-Safe :
      (h : Writes Version) (m : Prog Body Version (Res (Renewed Version)))
      → Safe wire (session_key wire name) Keeps m h
      → Safe wire (session_key wire name) Proven (bind m (λ a. done (ok (kept a)))) h
  renewed-Safe h m s =
      Safe-bind wire (session_key wire name) Keeps Proven m _ h s (λ g a x c. kept-Proven g a c)
        (λ g e. tt)

  -- Every task that a node may start is safe.
  pub started-Safe :
      (n : ℕ) (s : backend.Store) (ts : List (Task Body Version)) (h : Writes Version)
      → Inv n s ts h
      → (p : Task Body Version) → Starts wire name ts p
      → Safe wire (session_key wire name) Proven p h
  started-Safe n s ts h i p (acquires me endpoint t now) =
      acquired-Safe h _ (acquire-Safe wire name h me endpoint t now)
  started-Safe n s ts h i p (retries me endpoint t attempts clock) =
      acquired-Safe h _ (acquire_with_retry-Safe wire name h me endpoint t attempts clock)
  started-Safe n s ts h i p (renews a t now state m) =
      renewed-Safe h _ (renew-Safe wire name h a t now state (i.safe _ m))
  started-Safe n s ts h i p (stamps a state m) =
      renewed-Safe h _ (stamp_state-Safe wire name h a state (i.safe _ m))
  started-Safe n s ts h i p (names_instance a id m) =
      renewed-Safe h _ (set_instance-Safe wire name h a id (i.safe _ m))
  started-Safe n s ts h i p (releases a m) =
      Safe-bind wire (session_key wire name) (λ g r. Unit {0}) Proven _ _ h
        (release-Safe wire name h a (i.safe _ m)) (λ g u x q. tt) (λ g e. tt)

  pub Current-same :
      (h : Writes Version) (s t : backend.Store)
      → backend.lookup t (session_key wire name) ≡ backend.lookup s (session_key wire name)
      → Current h s
      → Current h t
  Current-same [] s t e c = e ∙ c
  Current-same ((l, v) ∷ h) s t e (b, w, c) = (b, w, e ∙ c)

  pub Carried-kept :
      (h : Writes Version) (s t : backend.Store)
      → ((b : Body) (v : Version)
          → backend.Written s (session_key wire name) b v
          → backend.Written t (session_key wire name) b v)
      → Carried h s
      → Carried h t
  Carried-kept h s t keep c l v m = let (b, w, x) = c l v m in (b, w, keep b v x)

  -- What the store answers to a read is a record of the history.
  pub answer-Shows :
      (h : Writes Version) (s t : backend.Store) (r : GetReply Body Version)
      → Current h s
      → backend.Gets s (session_key wire name) r t
      → Shows wire (session_key wire name) h r
  answer-Shows [] s t (GetReply.found b v) c g = absurd (cc (backend.gets_found s t _ b v g))
  answer-Shows ((l, w) ∷ h) s t (GetReply.found b v) (b', e, c) g =
      let (bodies, versions) = some_pair (sym c ∙ backend.gets_found s t _ b v g) in
      (l, wire.reads_back l b (e ∙ ap some bodies), inl (ap (λ x. (l, x)) versions))
  answer-Shows h s t GetReply.not_found c g = tt
  answer-Shows h s t GetReply.get_error c g = tt

  -- Of one version there is one record.
  pub same_record :
      (h : Writes Version) (s : backend.Store) (k l : Lease) (v w : Version) (b : Body)
      → Carried h s
      → wire.to_vec k ≡ some b
      → backend.lookup s (session_key wire name) ≡ some (b, v)
      → In (l, w) h
      → v ≡ w
      → k ≡ l
  same_record h s k l v w b car e cur m q =
      let (c, e', written) = car l w m in
      let now = backend.present_written s (session_key wire name) b v cur in
      let same =
        backend.one_body s (session_key wire name) b c w
          (subst (backend.Written s (session_key wire name) b) q now) written in
      cc (wire.reads_back k b e, wire.reads_back l c e', ap wire.from_slice same)

  -- Over the newest record, a legal write that the store admits follows that record.
  pub admitted-Chain :
      (h : Writes Version) (s : backend.Store) (m : PutMode Body Version) (l : Lease) (v : Version)
      → Chain h
      → Current h s
      → Carried h s
      → IsLegal wire (session_key wire name) h m l
      → Admits (backend.lookup s (session_key wire name)) m
      → Chain ((l, v) ∷ h)
  admitted-Chain [] s PutMode.create l v ch cur car legal a = legal
  admitted-Chain [] s (PutMode.update w) l v ch cur car (prev, m, f) a = absurd m
  admitted-Chain ((k, u) ∷ h) s PutMode.create l v ch (b, e, cur) car legal a = absurd (rw cur at a)
  admitted-Chain ((k, u) ∷ h) s (PutMode.update w) l v ch (b, e, cur) car (prev, m, f) a = (
    subst (λ x. Follows x l)
        (sym (same_record ((k, u) ∷ h) s k prev u w b car e cur m (rw cur at a))) f,
    ch,
  )
