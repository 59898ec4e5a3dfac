-- ===== src/Fleet/Lease/Takeover.antt =====
-- A name that is free, expired or released is taken: on a backend that answers, the attempt of
-- crates/barista-fleet/src/lease.rs ends with the lease held.
use Prim.Native.String.{String}
use text.Mathlib.Text.{◌==◌ as str_eq}
use barista_sh.Base.{
  ◌+◌, ◌%◌, true, false, not, ◌&&◌, Option, none, some, ◌≡◌, ◌⊎◌, inl, inr, refl, arith,
}
use barista_sh.Base.Int.{ℤ, pos, u64_mod, ◌≤ℤ◌}
use barista_sh.Fleet.Record.{Lease, Res, ok, Timing, validate, is_expired_at, Held, Acquired}
use barista_sh.Fleet.Program.{PutMode, GetReply, PutReply, bind, Wire}
use barista_sh.Fleet.Backend.{Backend, Responsive, Admits, Exec}
use barista_sh.Fleet.Lease.{
  session_key, decode_reply, read, written, put_lease, write_acquired, first_lease, next_lease,
  acquire_found, acquire, release,
}
use barista_sh.Fleet.Lease.Writing.{object, Holds}
use barista_sh.Fleet.Lease.Outcome.{Entitled, acquire_outcome}

module _ {Body Version : Type 0} (wire : Wire Body)
    (encodes : (l : Lease) → (b : Body) × (wire.to_vec l ≡ some b)) (backend : Backend Body Version)
    (live : Responsive Body Version backend) (name : String) where
  write_succeeds :
      (l : Lease) (m : PutMode Body Version) (s : backend.Store)
      → Admits (backend.lookup s (session_key wire name)) m
      → (a : Held Version) × (t : backend.Store) × (a.lease ≡ l)
        × Exec backend s (write_acquired wire (session_key wire name) l m) (ok (Acquired.held a)) t
  unfolding write_acquired put_lease written
  write_succeeds l m s ad =
      let (b, e) = encodes l in
      let (v, t, p) = live.accepts s (session_key wire name) b m ad in
      (
        record { lease = l; version = v },
        t,
        refl,
        rw (e, bind, Exec) (PutReply.stored v, t, p, (refl, refl)),
      )

  -- An expired record is never left to its owner.
  expired_found :
      (me endpoint : String) (timing : Timing) (now : ℤ) (prev : Lease) (v : Version)
      (s t : backend.Store) (a : Res (Acquired Version))
      → is_expired_at prev now ≡ true
      → Exec backend s
          (write_acquired wire
            (session_key wire name)
            (next_lease me endpoint timing now prev)
            (PutMode.update v))
          a
          t
      → Exec backend s
          (acquire_found wire (session_key wire name) me endpoint timing now (some (prev, v)))
          a
          t
  unfolding acquire_found
  expired_found me endpoint timing now prev v s t a expired x =
      let test : (not (is_expired_at prev now) && not (str_eq prev.owner me)) ≡ false =
        rw expired in
      rw (test, Exec) x

  -- Nothing is stored under the name, or a record that has expired by the clock `now`.
  abbrev pub Takeable : backend.Store → ℤ → Type 0
  Takeable s now =
      (object wire backend name s ≡ none)
      ⊎ ((prev : Lease) × (v : Version) × Holds wire backend name (object wire backend name s) prev
            v
          × (is_expired_at prev now ≡ true))

  -- On a backend that answers, an attempt with sound timing to own a name that is free, or whose
  -- record has expired by the caller's clock, ends with the name held.
  pub Takeable-acquired :
      (s : backend.Store) (me endpoint : String) (timing : Timing) (now : ℤ)
      → validate timing ≡ ok tt
      → Takeable s now
      → (a : Held Version) × (t : backend.Store) × Exec backend s
          (acquire wire name me endpoint timing now)
          (ok (Acquired.held a))
          t
  unfolding acquire read decode_reply
  Takeable-acquired s me endpoint timing now fit (inl free) =
      let (u, g) = live.shows_none s (session_key wire name) free in
      let still = backend.gets_same s u _ GetReply.not_found g (session_key wire name) in
      let (a, t, e, x) =
        write_succeeds (first_lease me endpoint timing now) PutMode.create u
          (rw (still, free) tt) in
      (a, t, rw (fit, bind, Exec) (GetReply.not_found, u, g, x))
  Takeable-acquired s me endpoint timing now fit (inr (prev, v, (b, d, here), expired)) =
      let (u, g) = live.shows s (session_key wire name) b v here in
      let still = backend.gets_same s u _ (GetReply.found b v) g (session_key wire name) in
      let (a, t, e, x) =
        write_succeeds (next_lease me endpoint timing now prev) (PutMode.update v) u
          (rw (still, here) refl) in
      (
        a,
        t,
        rw (fit, bind, Exec)
            (
              GetReply.found b v,
              u,
              g,
              rw (d, bind, Exec) (expired_found me endpoint timing now prev v u t _ expired x),
            ),
      )

  -- What replaces an expired record has the next epoch.
  next_epoch :
      (me endpoint : String) (timing : Timing) (now : ℤ) (o : Option (Body × Version))
      (l old : Lease) (v : Version)
      → Holds wire backend name o old v
      → is_expired_at old now ≡ true
      → Entitled wire backend name me endpoint timing now l o
      → l.epoch ≡ (old.epoch + 1) % u64_mod
  next_epoch me endpoint timing now o l old v (b, d, e) gone (inl (free, first)) =
      absurd (cc (free, e))
  next_epoch me endpoint timing now o l old v (b, d, e) gone
        (inr (prev, w, (c, d', e'), keeps, how)) =
      elim how [
        | inl (mine, alive, same) ↦ absurd (cc (e, e', d, d', gone, alive))
        | inr (expired, next) ↦ cc (e, e', d, d', next)
      ]

  expired_at_zero :
      (l : Lease) (now : ℤ) → l.expires_ms ≡ pos 0 → pos 0 ≤ℤ now → is_expired_at l now ≡ true
  unfolding is_expired_at
  expired_at_zero l now z later = ground arith

  -- On a backend that answers, a holder whose version is current releases the name, and from then
  -- on another node whose clock reads 0 or later holds it with its first attempt, at the next epoch.
  pub release_hands_over :
      (s : backend.Store) (held : Held Version) (b : Body) (me endpoint : String) (timing : Timing)
      (now : ℤ)
      → object wire backend name s ≡ some (b, held.version)
      → validate timing ≡ ok tt
      → pos 0 ≤ℤ now
      → (a : Held Version) × (t u : backend.Store) × Exec backend s
          (release wire name held)
          (ok tt)
          t
        × Exec backend t (acquire wire name me endpoint timing now) (ok (Acquired.held a)) u
        × (a.lease.owner ≡ me)
        × (a.lease.epoch ≡ (held.lease.epoch + 1) % u64_mod)
  unfolding release put_lease written
  release_hands_over s held b me endpoint timing now here fit later =
      let lease = held.lease in
      let given_up : Lease = record lease { expires_ms = pos 0 } in
      let (c, e) = encodes given_up in
      let (v, t, p) =
        live.accepts s (session_key wire name) c (PutMode.update held.version) (rw here refl) in
      let holds = (backend.puts_stored s t _ c _ v p).1 in
      let gone = expired_at_zero given_up now refl later in
      let (a, u, x) =
        Takeable-acquired t me endpoint timing now fit
          (inr (given_up, v, (c, wire.reads_back given_up c e, holds), gone)) in
      let (own, _, _, entitled, _) =
        acquire_outcome wire backend name me endpoint timing now t u (Acquired.held a) x in
      (
        a,
        t,
        u,
        rw (e, bind, Exec) (PutReply.stored v, t, p, (refl, refl)),
        x,
        own,
        next_epoch me endpoint timing now _ a.lease given_up v
            (c, wire.reads_back given_up c e, holds) gone entitled,
      )
