-- ===== src/Fleet/Lease/Outcome.antt =====
-- What an attempt to own a name (crates/barista-fleet/src/lease.rs) does when it runs alone.
use Prim.Native.String.{String}
use mathlib.Core.Path.{subst}
use text.Mathlib.Text.{◌==◌ as str_eq}
use text.Mathlib.TextEquality.{eq_iff}
use barista_sh.Base.{
  ◌+◌, ◌%◌, Bool, true, false, not, ◌&&◌, Bool-cases, Option, none, some, Option-cases, ◌≡◌, ◌≢◌,
  ◌⊎◌, inl, inr, refl, sym, ap, ◌∙◌,
}
use barista_sh.Base.Int.{ℤ, add_i64, u64_mod}
use barista_sh.Fleet.Record.{
  Lease, Error, Res, ok, err, Timing, validate, ttl_ms, is_expired_at, Acquired,
}
use barista_sh.Fleet.Program.{PutMode, GetReply, bind, Wire}
use barista_sh.Fleet.Backend.{Backend, Exec}
use barista_sh.Fleet.Lease.{
  session_key, decode_reply, read, write_acquired, next_lease, acquire_found, acquire,
}
use barista_sh.Fleet.Lease.Writing.{object, Holds, Wrote, put_lease_outcome}

both_false : (a b : Bool) → not a && not b ≡ true → (a ≡ false) × (b ≡ false)
both_false false false h = (refl, refl)
both_false false true h = cc
both_false true b h = cc

Res-cases : {A : Type 0} (r : Res A) → ((e : Error) × (r ≡ err e)) ⊎ ((a : A) × (r ≡ ok a))
Res-cases (ok a) = inr (a, refl)
Res-cases (err e) = inl (e, refl)

ok_inj : {A : Type 0} {a b : A} → ◌≡◌ {A = Res A} (ok a) (ok b) → a ≡ b
ok_inj e = cc

module _ {Body Version : Type 0} (wire : Wire Body) (backend : Backend Body Version)
    (name : String) where
  module _ (me endpoint : String) (timing : Timing) (now : ℤ) where
    -- The record that `me` is entitled to write over what the store holds.
    abbrev pub Entitled : Lease → Option (Body × Version) → Type 0
    Entitled l o =
        ((o ≡ none) × (l.epoch ≡ 1))
        ⊎ ((prev : Lease) × (v : Version) × Holds wire backend name o prev v
            × (l.instance_id ≡ prev.instance_id)
            × (((prev.owner ≡ me) × (is_expired_at prev now ≡ false) × (l.epoch ≡ prev.epoch))
                ⊎ ((is_expired_at prev now ≡ true) × (l.epoch ≡ (prev.epoch + 1) % u64_mod))))

    -- What an attempt may report, of the store before and after it.
    abbrev pub Attempt :
        Option (Body × Version) → Acquired Version → Option (Body × Version) → Type 0
    Attempt o (Acquired.held a) w =
        (a.lease.owner ≡ me)
        × (a.lease.expires_ms ≡ add_i64 now (ttl_ms timing))
        × (a.lease.state ≡ none)
        × Entitled a.lease o
        × Holds wire backend name w a.lease a.version
    Attempt o (Acquired.held_by_other owner expires_ms) w =
        ((prev : Lease) × (v : Version) × Holds wire backend name o prev v
          × (prev.owner ≡ owner)
          × (prev.expires_ms ≡ expires_ms)
          × (is_expired_at prev now ≡ false)
          × (owner ≢ me))
        × (w ≡ o)
    Attempt o Acquired.contended w = w ≡ o

    to_attempt :
        (l : Lease) (m : PutMode Body Version) (s t : backend.Store) (r : Acquired Version)
        → l.owner ≡ me
        → l.expires_ms ≡ add_i64 now (ttl_ms timing)
        → l.state ≡ none
        → Entitled l (object wire backend name s)
        → Exec backend s (write_acquired wire (session_key wire name) l m) (ok r) t
        → Attempt (object wire backend name s) r (object wire backend name t)
    unfolding write_acquired
    to_attempt l m s t r own exp st ent x =
        let (o, e, w) = put_lease_outcome wire backend name _ l m s t r x in go o e w
      where
        go :
            (o : Option Version)
            → elim o [
              | some v ↦ Acquired.held (record { lease = l; version = v })
              | none ↦ Acquired.contended
            ]
              ≡ r
            → Wrote wire backend name l m s o t
            → Attempt (object wire backend name s) r (object wire backend name t)
        go none e w =
            subst (λ z. Attempt (object wire backend name s) z (object wire backend name t)) e w
        go (some v) e w =
            subst (λ z. Attempt (object wire backend name s) z (object wire backend name t)) e
              (own, exp, st, ent, w.0)

    next_Entitled :
        (prev : Lease) (v : Version) (o : Option (Body × Version))
        → Holds wire backend name o prev v
        → not (is_expired_at prev now) && not (str_eq prev.owner me) ≡ false
        → Entitled (next_lease me endpoint timing now prev) o
    next_Entitled prev v o holds h = elim (Bool-cases (is_expired_at prev now)) [
      | inl expired ↦ inr (
        prev,
        v,
        holds,
        refl,
        inr (
          expired,
          rw expired (elim (Bool-cases (str_eq prev.owner me)) [
            | inl mine ↦ rw mine
            | inr other ↦ rw other
          ]),
        ),
      )
      | inr live ↦ elim (Bool-cases (str_eq prev.owner me)) [
        | inl mine ↦
            inr (prev, v, holds, refl, inl ((eq_iff prev.owner me).0 mine, live, rw (mine, live)))
        | inr other ↦ absurd (cc (rw (live, other) at h))
      ]
    ]

    abbrev Found : Option (Lease × Version) → Option (Body × Version) → Type 0
    Found none o = o ≡ none
    Found (some (prev, v)) o = Holds wire backend name o prev v

    Found-Attempt :
        (o : Option (Lease × Version)) (s t : backend.Store) (r : Acquired Version)
        → Found o (object wire backend name s)
        → Exec backend s
            (acquire_found wire (session_key wire name) me endpoint timing now o)
            (ok r)
            t
        → Attempt (object wire backend name s) r (object wire backend name t)
    unfolding acquire_found
    Found-Attempt none s t r h x =
        to_attempt _ PutMode.create s t r refl refl refl (inl (h, refl)) x
    Found-Attempt (some (prev, v)) s t r h x =
        elim (Bool-cases (not (is_expired_at prev now) && not (str_eq prev.owner me))) [
          | inl theirs ↦
              let (live, other) =
                both_false (is_expired_at prev now) (str_eq prev.owner me) theirs in
              let (same, still) = rw (theirs, Exec) at x in
              subst (λ z. Attempt (object wire backend name s) z (object wire backend name t))
                (ok_inj same)
                (
                  (prev, v, h, refl, refl, live, λ q. cc (other, (eq_iff prev.owner me).1 q)),
                  ap (object wire backend name) (sym still),
                )
          | inr takeable ↦
              to_attempt _ (PutMode.update v) s t r refl refl refl
                (next_Entitled prev v (object wire backend name s) h takeable)
                (rw (takeable, Exec) at x)
        ]

    read-Attempt :
        (r : GetReply Body Version) (s u t : backend.Store) (a : Acquired Version)
        → backend.Gets s (session_key wire name) r u
        → Exec backend u
            (bind
              (decode_reply wire r)
              (λ o. acquire_found wire (session_key wire name) me endpoint timing now o))
            (ok a)
            t
        → Attempt (object wire backend name s) a (object wire backend name t)
    unfolding decode_reply
    read-Attempt (GetReply.found b v) s u t a g x =
        let same = backend.gets_same s u _ (GetReply.found b v) g (session_key wire name) in
        elim (Option-cases (wire.from_slice b)) [
          | inl bad ↦ absurd (cc ((rw (bad, Exec) at x).0))
          | inr (l, e) ↦
              subst (λ o. Attempt o a (object wire backend name t)) same
                (Found-Attempt (some (l, v)) u t a (b, e, same ∙ backend.gets_found s u _ b v g)
                  (rw (e, Exec) at x))
        ]
    read-Attempt GetReply.not_found s u t a g x =
        let same = backend.gets_same s u _ GetReply.not_found g (session_key wire name) in
        subst (λ o. Attempt o a (object wire backend name t)) same
          (Found-Attempt none u t a (same ∙ backend.gets_not_found s u _ g) x)
    read-Attempt GetReply.get_error s u t a g x = absurd (cc (x.0))

    -- An attempt to own a name that runs alone and meets no backend error: if it reports the name
    -- as held, the stored record is its own, under its own clock's expiry, with epoch 1 over no
    -- record, with the old epoch over an own live record, and with the next epoch over an expired
    -- one; if it reports another owner, that owner's record is live and was not touched; if it
    -- reports a lost race, the stored record is as it was.
    pub acquire_outcome :
        (s t : backend.Store) (r : Acquired Version)
        → Exec backend s (acquire wire name me endpoint timing now) (ok r) t
        → Attempt (object wire backend name s) r (object wire backend name t)
    unfolding acquire read
    acquire_outcome s t r x = elim (Res-cases (validate timing)) [
      | inl (e, bad) ↦ absurd (cc ((rw (bad, bind, Exec) at x).0))
      | inr (u, fit) ↦
          let (y, z, g, rest) = rw (fit, bind, Exec) at x in read-Attempt y s z t r g rest
    ]
