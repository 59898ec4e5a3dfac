-- ===== src/Fleet/Cluster.antt =====
-- Any number of nodes that run the operations of crates/barista-fleet/src/lease.rs on one session
-- name, interleaved request by request over one object store. A node's clock is not trusted: each
-- operation starts with a reading of its own, and a task may stop for good at any request.
pub mod Invariant
pub mod Preserved
pub mod Fencing
use Prim.Native.String.{String}
use barista_sh.Base.{ℕ, zero, suc, Option, none, some, List, [], ◌∷◌, In, ◌≡◌, ◌≢◌}
use barista_sh.Base.Int.{ℤ}
use barista_sh.Fleet.Record.{Res, ok, err, Timing, Held, Acquired, Renewed}
use barista_sh.Fleet.Program.{PutMode, GetReply, PutReply, Prog, done, get, put, bind, pure, Wire}
use barista_sh.Fleet.Lease.{
  session_key, acquire, renew, stamp_state, set_instance, release, acquire_with_retry,
}
use barista_sh.Fleet.Backend.{Backend}

-- A task on its way, and at its end the lease that it may claim to hold.
abbrev pub Task : Type 0 → Type 0 → Type 0
Task Body Version = Prog Body Version (Res (Option (Held Version)))

abbrev pub won : {Version : Type 0} → Acquired Version → Option (Held Version)
won (Acquired.held a) = some a
won (Acquired.held_by_other owner expires_ms) = none
won Acquired.contended = none

abbrev pub kept : {Version : Type 0} → Renewed Version → Option (Held Version)
kept (Renewed.held a) = some a
kept Renewed.fenced = none

-- One element of a list changes.
pub data Swap {A : Type 0} (x y : A) : List A → List A → Type 0 where
  here : {xs : List A} → Swap x y (x ∷ xs) (y ∷ xs)
  there : {z : A} {xs ys : List A} → Swap x y xs ys → Swap x y (z ∷ xs) (z ∷ ys)

module _ {Body Version : Type 0} (wire : Wire Body) (name : String) where
  -- The tasks that a node may start: an attempt to own the name, or an operation with a lease that
  -- some task has ended with.
  pub data Starts (tasks : List (Task Body Version)) : Task Body Version → Type 0 where
    acquires :
        (me endpoint : String) (t : Timing) (now : ℤ)
        → Starts tasks (bind (acquire wire name me endpoint t now) (λ a. pure (won a)))
    retries :
        (me endpoint : String) (t : Timing) (attempts : ℕ) (clock : ℕ → ℤ)
        → Starts tasks
            (bind (acquire_with_retry wire name me endpoint t attempts clock) (λ a. pure (won a)))
    renews :
        (a : Held Version) (t : Timing) (now : ℤ) (state : Option String)
        → In (done (ok (some a))) tasks
        → Starts tasks (bind (renew wire name a t now state) (λ r. pure (kept r)))
    stamps :
        (a : Held Version) (state : Option String)
        → In (done (ok (some a))) tasks
        → Starts tasks (bind (stamp_state wire name a state) (λ r. pure (kept r)))
    names_instance :
        (a : Held Version) (instance_id : String)
        → In (done (ok (some a))) tasks
        → Starts tasks (bind (set_instance wire name a instance_id) (λ r. pure (kept r)))
    releases :
        (a : Held Version)
        → In (done (ok (some a))) tasks
        → Starts tasks (bind (release wire name a) (λ u. pure none))

module _ {Body Version : Type 0} (wire : Wire Body) (backend : Backend Body Version)
    (name : String) where
  -- One event: a task starts, a task's next request is served, or a request at another path is.
  pub data Step (s : backend.Store) (ts : List (Task Body Version)) (t : backend.Store)
      : List (Task Body Version) → Type 0 where
    starts : s ≡ t → (p : Task Body Version) → Starts wire name ts p → Step s ts t (p ∷ ts)
    reads :
        {us : List (Task Body Version)} (p : String) (k : GetReply Body Version → Task Body Version)
        (r : GetReply Body Version)
        → backend.Gets s p r t
        → Swap (get p k) (k r) ts us
        → Step s ts t us
    writes :
        {us : List (Task Body Version)} (p : String) (b : Body) (m : PutMode Body Version)
        (k : PutReply Body Version → Task Body Version) (r : PutReply Body Version)
        → backend.Puts s p b m r t
        → Swap (put p b m k) (k r) ts us
        → Step s ts t us
    elsewhere :
        (p : String) (b : Body) (m : PutMode Body Version) (r : PutReply Body Version)
        → session_key wire name ≢ p
        → backend.Puts s p b m r t
        → Step s ts t ts

  -- What a cluster can have come to after so many events, from a store without the name.
  pub data Run : ℕ → backend.Store → List (Task Body Version) → Type 0 where
    begins : (s : backend.Store) → backend.lookup s (session_key wire name) ≡ none → Run 0 s []
    then :
        {n : ℕ} {s t : backend.Store} {ts us : List (Task Body Version)}
        → Run n s ts
        → Step s ts t us
        → Run (suc n) t us
