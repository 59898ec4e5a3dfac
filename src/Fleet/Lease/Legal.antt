-- ===== src/Fleet/Lease/Legal.antt =====
-- Every operation of crates/barista-fleet/src/lease.rs writes only records that follow the record
-- whose version fences the write, and ends with evidence of a record that was stored.
use Prim.Native.String.{String}
use Prim.Native.Nat.{max}
use text.Mathlib.Text.{◌==◌ as str_eq}
use text.Mathlib.TextEquality.{eq_iff}
use barista_sh.Base.{
  ℕ, zero, suc, Bool-cases, Option, none, some, Option-cases, In, inl, inr, refl, sym, not, ◌&&◌,
}
use barista_sh.Base.Int.{ℤ}
use barista_sh.Fleet.Record.{Lease, Res, ok, Timing, validate, is_expired_at, Held, Acquired}
use barista_sh.Fleet.Program.{PutMode, GetReply, PutReply, done, Wire}
use barista_sh.Fleet.Lease.{
  session_key, decode_reply, read, written, put_lease, write_acquired, next_lease, acquire_found,
  acquire, fenced_write, renew, stamp_state, set_instance, release, is_contended, retry,
  acquire_with_retry,
}
use barista_sh.Fleet.History.{Writes, Follows}
use barista_sh.Fleet.Safe.{Shows, Records, IsLegal, Safe, Safe-bind, Owned, Claims, Keeps}

next_lease-Follows :
    (me endpoint : String) (t : Timing) (now : ℤ) (prev : Lease)
    → Follows prev (next_lease me endpoint t now prev)
next_lease-Follows me endpoint t now prev = elim (Bool-cases (str_eq prev.owner me)) [
  | inl mine ↦ elim (Bool-cases (is_expired_at prev now)) [
    | inl expired ↦ inr (rw (mine, expired))
    | inr live ↦ inl (sym ((eq_iff prev.owner me).0 mine), rw (mine, live))
  ]
  | inr other ↦ inr (rw other)
]

module _ {Body Version : Type 0} (wire : Wire Body) (name : String) where
  -- A read ends with a record of the history.
  abbrev Seen : Writes Version → Res (Option (Lease × Version)) → Type 0
  Seen h (ok (some (l, v))) = In (l, v) h
  Seen h _ = Unit

  decoded :
      (h : Writes Version) (r : GetReply Body Version)
      → Shows wire (session_key wire name) h r
      → Safe wire (session_key wire name) Seen (decode_reply wire r) h
  unfolding decode_reply
  decoded h (GetReply.found b v) (l, e, m) = rw (e, Safe) m
  decoded h GetReply.not_found s = tt
  decoded h GetReply.get_error s = tt

  read-Safe : (h : Writes Version) → Safe wire (session_key wire name) Seen (read wire name) h
  unfolding read
  read-Safe h = (refl, λ g r x s. decoded g r s)

  -- A write ends with its record stored under the version that it reports, or with none.
  abbrev Stored : Lease → Writes Version → Res (Option Version) → Type 0
  Stored l h (ok (some v)) = In (l, v) h
  Stored l h _ = Unit

  written_as :
      (l : Lease) (h : Writes Version) (r : PutReply Body Version)
      → Records wire (session_key wire name) h l r
      → Safe wire (session_key wire name) (Stored l) (written wire r) h
  unfolding written
  written_as l h (PutReply.stored v) s = s
  written_as l h PutReply.already_exists s = tt
  written_as l h PutReply.precondition s = tt
  written_as l h PutReply.put_error s = tt

  put_lease-Safe :
      (h : Writes Version) (l : Lease) (m : PutMode Body Version)
      → IsLegal wire (session_key wire name) h m l
      → Safe wire (session_key wire name) (Stored l) (put_lease wire (session_key wire name) l m) h
  unfolding put_lease
  put_lease-Safe h l m legal = elim (Option-cases (wire.to_vec l)) [
    | inl e ↦ rw (e, Safe) tt
    | inr (b, e) ↦ rw (e, Safe) (refl, l, e, legal, λ g r x s. written_as l g r s)
  ]

  write_acquired-Safe :
      (h : Writes Version) (l : Lease) (m : PutMode Body Version)
      → IsLegal wire (session_key wire name) h m l
      → Safe wire (session_key wire name) Claims (write_acquired wire (session_key wire name) l m) h
  unfolding write_acquired
  write_acquired-Safe h l m legal =
      Safe-bind wire (session_key wire name) (Stored l) Claims
        (put_lease wire (session_key wire name) l m) _ h (put_lease-Safe h l m legal)
        (λ g. elim [ none ↦ λ x q. tt | some v ↦ λ x q. q ]) (λ g e. tt)

  fenced_write-Safe :
      (h : Writes Version) (a : Held Version) (l : Lease)
      → Owned h a
      → Follows a.lease l
      → Safe wire (session_key wire name) Keeps (fenced_write wire name a l) h
  unfolding fenced_write
  fenced_write-Safe h a l own f =
      Safe-bind wire (session_key wire name) (Stored l) Keeps
        (put_lease wire (session_key wire name) l (PutMode.update a.version)) _ h
        (put_lease-Safe h l (PutMode.update a.version) (a.lease, own, f))
        (λ g. elim [ none ↦ λ x q. tt | some v ↦ λ x q. q ]) (λ g e. tt)

  pub renew-Safe :
      (h : Writes Version) (a : Held Version) (t : Timing) (now : ℤ) (state : Option String)
      → Owned h a
      → Safe wire (session_key wire name) Keeps (renew wire name a t now state) h
  unfolding renew
  renew-Safe h a t now state own = fenced_write-Safe h a _ own (inl (refl, refl))

  pub stamp_state-Safe :
      (h : Writes Version) (a : Held Version) (state : Option String)
      → Owned h a
      → Safe wire (session_key wire name) Keeps (stamp_state wire name a state) h
  unfolding stamp_state
  stamp_state-Safe h a state own = fenced_write-Safe h a _ own (inl (refl, refl))

  pub set_instance-Safe :
      (h : Writes Version) (a : Held Version) (instance_id : String)
      → Owned h a
      → Safe wire (session_key wire name) Keeps (set_instance wire name a instance_id) h
  unfolding set_instance
  set_instance-Safe h a instance_id own = fenced_write-Safe h a _ own (inl (refl, refl))

  pub release-Safe :
      (h : Writes Version) (a : Held Version)
      → Owned h a
      → Safe wire (session_key wire name) (λ g r. Unit {0}) (release wire name a) h
  unfolding release
  release-Safe h a own =
      Safe-bind wire (session_key wire name) (Stored _) (λ g r. Unit {0})
        (put_lease wire (session_key wire name) _ (PutMode.update a.version)) _ h
        (put_lease-Safe h _ (PutMode.update a.version) (a.lease, own, inl (refl, refl)))
        (λ g v x q. tt) (λ g e. tt)

  acquire_found-Safe :
      (h : Writes Version) (me endpoint : String) (t : Timing) (now : ℤ)
      (o : Option (Lease × Version))
      → Seen h (ok o)
      → Safe wire
          (session_key wire name)
          Claims
          (acquire_found wire (session_key wire name) me endpoint t now o)
          h
  unfolding acquire_found
  acquire_found-Safe h me endpoint t now none s = write_acquired-Safe h _ PutMode.create refl
  acquire_found-Safe h me endpoint t now (some (prev, v)) s =
      elim (Bool-cases (not (is_expired_at prev now) && not (str_eq prev.owner me))) [
        | inl theirs ↦ rw (theirs, Safe) tt
        | inr takeable ↦
            rw (takeable, Safe)
              (write_acquired-Safe h _ (PutMode.update v)
                (prev, s, next_lease-Follows me endpoint t now prev))
      ]

  pub acquire-Safe :
      (h : Writes Version) (me endpoint : String) (t : Timing) (now : ℤ)
      → Safe wire (session_key wire name) Claims (acquire wire name me endpoint t now) h
  unfolding acquire
  acquire-Safe h me endpoint t now =
      Safe-bind wire (session_key wire name) (λ g r. Unit {0}) Claims (done (validate t)) _ h tt
        (λ g u x q.
          Safe-bind wire (session_key wire name) Seen Claims (read wire name) _ g (read-Safe g)
            (λ f o y s. acquire_found-Safe f me endpoint t now o s) (λ f e. tt))
        (λ g e. tt)

  retry-Safe :
      (h : Writes Version) (me endpoint : String) (t : Timing) (left : ℕ) (clock : ℕ → ℤ)
      (last : Acquired Version)
      → Claims h (ok last)
      → Safe wire (session_key wire name) Claims (retry wire name me endpoint t left clock last) h
  unfolding retry
  retry-Safe h me endpoint t zero clock last s = s
  retry-Safe h me endpoint t (suc left) clock last s =
      Safe-bind wire (session_key wire name) Claims Claims
        (acquire wire name me endpoint t (clock left)) _ h
        (acquire-Safe h me endpoint t (clock left))
        (λ g a x q. elim (Bool-cases (is_contended a)) [
          | inl again ↦ rw (again, Safe) (retry-Safe g me endpoint t left clock a q)
          | inr settled ↦ rw (settled, Safe) q
        ])
        (λ g e. tt)

  pub acquire_with_retry-Safe :
      (h : Writes Version) (me endpoint : String) (t : Timing) (attempts : ℕ) (clock : ℕ → ℤ)
      → Safe wire
          (session_key wire name)
          Claims
          (acquire_with_retry wire name me endpoint t attempts clock)
          h
  unfolding acquire_with_retry
  acquire_with_retry-Safe h me endpoint t attempts clock =
      retry-Safe h me endpoint t (max attempts 1) clock Acquired.contended tt
