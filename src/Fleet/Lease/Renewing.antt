-- ===== src/Fleet/Lease/Renewing.antt =====
-- What the writes fenced by a held version do to the record: `renew`, `stamp_state` and
-- `set_instance` of crates/barista-fleet/src/lease.rs.
use Prim.Native.String.{String}
use mathlib.Core.Path.{subst}
use barista_sh.Base.{Option, none, some, ◌≡◌, ◌⊎◌, inl, inr, refl}
use barista_sh.Base.Int.{ℤ, add_i64}
use barista_sh.Fleet.Record.{Lease, ok, Timing, ttl_ms, Held, Renewed}
use barista_sh.Fleet.Program.{PutMode, Wire}
use barista_sh.Fleet.Backend.{Backend, Admits, Exec}
use barista_sh.Fleet.Lease.{session_key, fenced_write, renew, stamp_state, set_instance}
use barista_sh.Fleet.Lease.Writing.{object, Holds, Wrote, put_lease_outcome}

module _ {Body Version : Type 0} (wire : Wire Body) (backend : Backend Body Version)
    (name : String) where
  -- What a write fenced by `held` did: its record is stored over the version that was held, or the
  -- store had another version, and nothing changed.
  abbrev pub Fenced :
      Held Version → Lease → backend.Store → Renewed Version → backend.Store → Type 0
  Fenced held l s (Renewed.held a) t =
      (a.lease ≡ l)
      × Holds wire backend name (object wire backend name t) l a.version
      × Admits (backend.lookup s (session_key wire name)) (PutMode.update held.version)
  Fenced held l s Renewed.fenced t = (object wire backend name t ≡ object wire backend name s)

  fenced_write_outcome :
      (s t : backend.Store) (held : Held Version) (l : Lease) (r : Renewed Version)
      → Exec backend s (fenced_write wire name held l) (ok r) t
      → Fenced held l s r t
  unfolding fenced_write
  fenced_write_outcome s t held l r x =
      let (o, e, w) =
        put_lease_outcome wire backend name _ l (PutMode.update held.version) s t r x in
      go o e w
    where
      go :
          (o : Option Version)
          → elim o [
            | some v ↦ Renewed.held (record { lease = l; version = v })
            | none ↦ Renewed.fenced
          ]
            ≡ r
          → Wrote wire backend name l (PutMode.update held.version) s o t
          → Fenced held l s r t
      go none e w = subst (λ z. Fenced held l s z t) e w
      go (some v) e w = subst (λ z. Fenced held l s z t) e (refl, w.0, w.1)

  -- A renewal that succeeds stores the held record with a new expiry and the given run state, over
  -- the version that was held, and nothing else about the record moves: owner, epoch, endpoint and
  -- instance stay. One that reports `fenced` leaves the stored record as it was.
  pub renew_outcome :
      (s t : backend.Store) (held : Held Version) (timing : Timing) (now : ℤ)
      (state : Option String) (r : Renewed Version)
      → Exec backend s (renew wire name held timing now state) (ok r) t
      → Fenced held
          (record {
            owner = held.lease.owner;
            epoch = held.lease.epoch;
            expires_ms = add_i64 now (ttl_ms timing);
            endpoint = held.lease.endpoint;
            instance_id = held.lease.instance_id;
            state = state;
          })
          s
          r
          t
  unfolding renew
  renew_outcome s t held timing now state r x = fenced_write_outcome s t held _ r x

  -- Stamping a run state and naming an instance, when they succeed, leave the expiry, the owner and
  -- the epoch as they were held: neither extends the lease. When they report `fenced` the stored
  -- record is as it was.
  pub stamp_keeps_liveness :
      (s t : backend.Store) (held : Held Version) (state : Option String) (instance_id : String)
      (r : Renewed Version)
      → Exec backend s (stamp_state wire name held state) (ok r) t
        ⊎ Exec backend s (set_instance wire name held instance_id) (ok r) t
      → (l : Lease) × Fenced held l s r t
        × (l.expires_ms ≡ held.lease.expires_ms)
        × (l.owner ≡ held.lease.owner)
        × (l.epoch ≡ held.lease.epoch)
  unfolding stamp_state set_instance
  stamp_keeps_liveness s t held state instance_id r (inl x) =
      (_, fenced_write_outcome s t held _ r x, refl, refl, refl)
  stamp_keeps_liveness s t held state instance_id r (inr x) =
      (_, fenced_write_outcome s t held _ r x, refl, refl, refl)
