-- ===== src/Fleet/Cluster/Fencing.antt =====
-- The protocol's safety: one epoch has one owner, and a superseded lease writes nothing more.
use Prim.Native.String.{String}
use barista_sh.Base.{ℕ, ◌≤◌, ◌<◌, some, List, [], ◌∷◌, In, ◌≡◌, arith}
use mathlib.Core.Path.{subst}
use barista_sh.Base.Int.{u64_mod}
use barista_sh.Fleet.Record.{ok, Held}
use barista_sh.Fleet.Program.{PutMode, PutReply, done, Wire}
use barista_sh.Fleet.Lease.{session_key}
use barista_sh.Fleet.Backend.{Backend, Admits}
use barista_sh.Fleet.History.{Writes, one_owner, newest}
use barista_sh.Fleet.Cluster.{Task, Run}
use barista_sh.Fleet.Cluster.Invariant.{Inv, same_record}
use barista_sh.Fleet.Cluster.Preserved.{Run-Inv}

module _ {Body Version : Type 0} (wire : Wire Body) (backend : Backend Body Version)
    (name : String) where
  -- Over fewer than 2^64 events from a store without the name, whatever the clocks say and however
  -- the nodes' requests interleave, two tasks that ended holding the name at one epoch hold it for
  -- one and the same owner.
  pub one_owner_per_epoch :
      (n : ℕ) (s : backend.Store) (ts : List (Task Body Version)) (a b : Held Version)
      → Run wire backend name n s ts
      → n < u64_mod
      → In (done (ok (some a))) ts
      → In (done (ok (some b))) ts
      → a.lease.epoch ≡ b.lease.epoch
      → a.lease.owner ≡ b.lease.owner
  one_owner_per_epoch n s ts a b r bound ma mb e =
      let (h, i) = Run-Inv wire backend name n s ts r in
      one_owner h a.lease b.lease a.version b.version i.chain (omega (arith, i.short)) (i.safe _ ma)
        (i.safe _ mb) e

  -- The version of a record that is not the newest admits no write.
  newest-Admits :
      (n : ℕ) (s : backend.Store) (ts : List (Task Body Version)) (h : Writes Version)
      (a b : Held Version)
      → Inv wire backend name n s ts h
      → n < u64_mod
      → In (a.lease, a.version) h
      → In (b.lease, b.version) h
      → Admits (backend.lookup s (session_key wire name)) (PutMode.update a.version)
      → b.lease.epoch ≤ a.lease.epoch
  newest-Admits n s ts [] a b i bound ma mb ad = absurd ma
  newest-Admits n s ts ((l, v) ∷ h) a b i bound ma mb ad =
      let (body, e, cur) = i.current in
      let same =
        same_record wire backend name ((l, v) ∷ h) s l a.lease v a.version body i.carried e cur ma
          (rw cur at ad) in
      subst (λ x. b.lease.epoch ≤ x.epoch) same
        (newest l b.lease v b.version h i.chain (omega (arith, i.short)) mb).0

  -- Once some task has ended holding the name at a later epoch than `a`, the store answers no write
  -- that is fenced by the version of `a` with a success: a superseded owner changes nothing.
  pub superseded_write_refused :
      (n : ℕ) (s t : backend.Store) (ts : List (Task Body Version)) (a b : Held Version)
      (body : Body) (v : Version)
      → Run wire backend name n s ts
      → n < u64_mod
      → In (done (ok (some a))) ts
      → In (done (ok (some b))) ts
      → a.lease.epoch < b.lease.epoch
      → ¬ backend.Puts s
          (session_key wire name)
          body
          (PutMode.update a.version)
          (PutReply.stored v)
          t
  superseded_write_refused n s t ts a b body v r bound ma mb later puts =
      let (h, i) = Run-Inv wire backend name n s ts r in
      let admits =
        (backend.puts_stored s t (session_key wire name) body (PutMode.update a.version) v
          puts).0 in
      let le = newest-Admits n s ts h a b i bound (i.safe _ ma) (i.safe _ mb) admits in omega arith
