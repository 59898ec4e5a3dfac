-- ===== src/Fleet/Cluster/Preserved.antt =====
-- Every event of a run keeps the invariant of the history and the tasks
-- (crates/barista-fleet/src/lease.rs).
use Prim.Native.String.{String}
use barista_sh.Base.{ℕ, suc, some, List, [], ◌∷◌, In, ◌≡◌, ◌⊎◌, inl, inr, refl, arith}
use mathlib.Core.Path.{subst}
use barista_sh.Fleet.Record.{Lease}
use barista_sh.Fleet.Program.{PutMode, PutReply, get, put, Wire}
use barista_sh.Fleet.Lease.{session_key}
use barista_sh.Fleet.Backend.{Backend, Admits}
use barista_sh.Fleet.History.{Writes, Extends}
use barista_sh.Fleet.Safe.{IsLegal, Safe, Safe-mono}
use barista_sh.Fleet.Cluster.{Task, Step, starts, reads, writes, elsewhere, Run, begins, then}
use barista_sh.Fleet.Cluster.Invariant.{
  In-Swap, Swap-In, Proven, Proven-up, Inv, started-Safe, Current-same, Carried-kept, answer-Shows,
  admitted-Chain,
}

module _ {Body Version : Type 0} (wire : Wire Body) (backend : Backend Body Version)
    (name : String) where
  -- A write that was carried out puts its record at the head of the history.
  wrote-Inv :
      (n : ℕ) (s t : backend.Store) (ts us : List (Task Body Version)) (h : Writes Version)
      (b : Body) (m : PutMode Body Version) (r : PutReply Body Version) (l : Lease) (v : Version)
      → Inv wire backend name n s ts h
      → backend.Puts s (session_key wire name) b m r t
      → wire.to_vec l ≡ some b
      → IsLegal wire (session_key wire name) h m l
      → Admits (backend.lookup s (session_key wire name)) m
      → backend.lookup t (session_key wire name) ≡ some (b, v)
      → ((p : Task Body Version)
          → In p us
          → Safe wire (session_key wire name) (Proven wire backend name) p ((l, v) ∷ h))
      → Inv wire backend name (suc n) t us ((l, v) ∷ h)
  wrote-Inv n s t ts us h b m r l v i puts e legal a put_there safe = record {
    chain = admitted-Chain wire backend name h s m l v i.chain i.current i.carried legal a;
    current = (b, e, put_there);
    carried = λ l' v'. elim [
      | inl q ↦
          subst
            (λ x.
              (c : Body) × (wire.to_vec x.0 ≡ some c)
              × backend.Written t (session_key wire name) c x.1)
            q (b, e, backend.present_written t (session_key wire name) b v put_there)
      | inr mem ↦
          Carried-kept wire backend name h s t
            (λ c w.
              backend.puts_kept s t (session_key wire name) b m r puts (session_key wire name) c w)
            i.carried l' v' mem
    ];
    safe = safe;
    short = omega (arith, i.short);
  }

  -- An event that leaves the name's object alone.
  idle-Inv :
      (n : ℕ) (s t : backend.Store) (ts us : List (Task Body Version)) (h : Writes Version)
      → Inv wire backend name n s ts h
      → backend.lookup t (session_key wire name) ≡ backend.lookup s (session_key wire name)
      → ((b : Body) (v : Version)
          → backend.Written s (session_key wire name) b v
          → backend.Written t (session_key wire name) b v)
      → ((p : Task Body Version)
          → In p us
          → Safe wire (session_key wire name) (Proven wire backend name) p h)
      → Inv wire backend name (suc n) t us h
  idle-Inv n s t ts us h i same keep safe = record {
    chain = i.chain;
    current = Current-same wire backend name h s t same i.current;
    carried = Carried-kept wire backend name h s t keep i.carried;
    safe = safe;
    short = omega (arith, i.short);
  }

  -- After a task's step, every task is the one that stepped or an old one.
  replaced-Safe :
      (h g : Writes Version) (ts us : List (Task Body Version)) (p : Task Body Version)
      → Extends h g
      → ((z : Task Body Version)
          → In z ts
          → Safe wire (session_key wire name) (Proven wire backend name) z h)
      → ((z : Task Body Version) → In z us → (p ≡ z) ⊎ In z ts)
      → Safe wire (session_key wire name) (Proven wire backend name) p g
      → (z : Task Body Version) → In z us
      → Safe wire (session_key wire name) (Proven wire backend name) z g
  replaced-Safe h g ts us p x old from new z m = elim (from z m) [
    | inl e ↦ subst (λ y. Safe wire (session_key wire name) (Proven wire backend name) y g) e new
    | inr o ↦
        Safe-mono wire (session_key wire name) (Proven wire backend name)
          (Proven-up wire backend name) z h g x (old z o)
  ]

  served-Inv :
      (n : ℕ) (s t : backend.Store) (ts us : List (Task Body Version)) (h : Writes Version)
      (b : Body) (m : PutMode Body Version) (k : PutReply Body Version → Task Body Version)
      (r : PutReply Body Version)
      → Inv wire backend name n s ts h
      → backend.Puts s (session_key wire name) b m r t
      → Safe wire
          (session_key wire name)
          (Proven wire backend name)
          (put (session_key wire name) b m k)
          h
      → ((z : Task Body Version) → In z us → (k r ≡ z) ⊎ In z ts)
      → (g : Writes Version) × Inv wire backend name (suc n) t us g
  served-Inv n s t ts us h b m k (PutReply.stored v) i puts (_, l, e, legal, next) from =
      let (a, there_now) = backend.puts_stored s t (session_key wire name) b m v puts in
      (
        (l, v) ∷ h,
        wrote-Inv n s t ts us h b m _ l v i puts e legal a there_now (
            replaced-Safe h ((l, v) ∷ h) ts us (k (PutReply.stored v)) (λ z o. inr o) i.safe from
              (next ((l, v) ∷ h) (PutReply.stored v) (λ z o. inr o) (inl refl))),
      )
  served-Inv n s t ts us h b m k PutReply.already_exists i puts (_, l, e, legal, next) from = (
    h,
    idle-Inv n s t ts us h i (backend.puts_refused s t _ b m _ tt puts)
        (λ c w. backend.puts_kept s t _ b m _ puts _ c w)
        (replaced-Safe h h ts us (k PutReply.already_exists) (λ z o. o) i.safe from
          (next h PutReply.already_exists (λ z o. o) tt)),
  )
  served-Inv n s t ts us h b m k PutReply.precondition i puts (_, l, e, legal, next) from = (
    h,
    idle-Inv n s t ts us h i (backend.puts_refused s t _ b m _ tt puts)
        (λ c w. backend.puts_kept s t _ b m _ puts _ c w)
        (replaced-Safe h h ts us (k PutReply.precondition) (λ z o. o) i.safe from
          (next h PutReply.precondition (λ z o. o) tt)),
  )
  served-Inv n s t ts us h b m k PutReply.put_error i puts (_, l, e, legal, next) from =
      elim (backend.puts_error s t (session_key wire name) b m puts) [
        | inl same ↦ (
          h,
          idle-Inv n s t ts us h i same (λ c w. backend.puts_kept s t _ b m _ puts _ c w)
              (replaced-Safe h h ts us (k PutReply.put_error) (λ z o. o) i.safe from
                (next h PutReply.put_error (λ z o. o) tt)),
        )
        | inr (v, a, there_now) ↦ (
          (l, v) ∷ h,
          wrote-Inv n s t ts us h b m _ l v i puts e legal a there_now (
              replaced-Safe h ((l, v) ∷ h) ts us (k PutReply.put_error) (λ z o. inr o) i.safe from
                (next ((l, v) ∷ h) PutReply.put_error (λ z o. inr o) tt)),
        )
      ]

  Step-Inv :
      (n : ℕ) (s t : backend.Store) (ts us : List (Task Body Version)) (h : Writes Version)
      → Inv wire backend name n s ts h
      → Step wire backend name s ts t us
      → (g : Writes Version) × Inv wire backend name (suc n) t us g
  Step-Inv n s t ts us h i (starts e p q) = (
    h,
    subst (λ x. Inv wire backend name (suc n) x (p ∷ ts) h) e
        (idle-Inv n s s ts (p ∷ ts) h i refl (λ b v w. w)
          (λ z. elim [
            | inl d ↦
                subst (λ y. Safe wire (session_key wire name) (Proven wire backend name) y h) d
                  (started-Safe wire backend name n s ts h i p q)
            | inr o ↦ i.safe z o
          ])),
  )
  Step-Inv n s t ts us h i (reads p k r g x) =
      let now = i.safe (get p k) (Swap-In x) in
      let at_key = subst (λ q. backend.Gets s q r t) now.0 g in
      (
        h,
        idle-Inv n s t ts us h i (backend.gets_same s t p r g _)
            (λ b v. backend.gets_kept s t p r g _ b v)
            (replaced-Safe h h ts us (k r) (λ z o. o) i.safe (λ z. In-Swap z x)
              (now.1 h r (λ z o. o) (answer-Shows wire backend name h s t r i.current at_key))),
      )
  Step-Inv n s t ts us h i (writes p b m k r g x) =
      let now = i.safe (put p b m k) (Swap-In x) in
      served-Inv n s t ts us h b m k r i (subst (λ q. backend.Puts s q b m r t) now.0 g)
        (refl, now.1, now.2, now.3, now.4) (λ z. In-Swap z x)
  Step-Inv n s t ts us h i (elsewhere p b m r other g) = (
    h,
    idle-Inv n s t ts ts h i (backend.puts_elsewhere s t p b m r g _ other)
        (λ c v. backend.puts_kept s t p b m r g _ c v) i.safe,
  )

  pub Run-Inv :
      (n : ℕ) (s : backend.Store) (ts : List (Task Body Version))
      → Run wire backend name n s ts
      → (h : Writes Version) × Inv wire backend name n s ts h
  Run-Inv n s ts (begins s' e) = (
    [],
    record {
      chain = tt;
      current = e;
      carried = λ l v m. absurd m;
      safe = λ p m. absurd m;
      short = omega arith;
    },
  )
  Run-Inv n s ts (then r st) = let (h, i) = Run-Inv _ _ _ r in Step-Inv _ _ _ _ _ h i st
