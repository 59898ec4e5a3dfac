-- ===== src/Fleet/Lease.antt =====
-- The operations of crates/barista-fleet/src/lease.rs on one session name.
pub mod Legal
pub mod Writing
pub mod Renewing
pub mod Outcome
pub mod Takeover
use Prim.Native.String.{String, ◌++◌}
use text.Mathlib.Text.{◌==◌ as str_eq}
use barista_sh.Base.{
  ℕ, zero, suc, ◌+◌, ◌%◌, Bool, true, false, not, ◌&&◌, if◌then◌else◌, Option, none, some,
}
use Prim.Native.Nat.{max}
use mathlib.Core.Option
use barista_sh.Base.Int.{ℤ, pos, add_i64, u64_mod}
use barista_sh.Fleet.Record.{
  Error, Res, ok, err, Timing, validate, ttl_ms, Lease, is_expired_at, Held, Acquired, Renewed,
}
use barista_sh.Fleet.Program.{
  PutMode, GetReply, PutReply, Prog, done, get, put, ◌>>=◌, ◌>>◌, pure, throw, lift, Wire,
}

-- `session_key`
unfoldable pub session_key : {Body : Type 0} → Wire Body → String → String
session_key wire name = wire.path_from ("sessions/" ++ name)

-- the record that the first owner of a name writes
abbrev pub first_lease : String → String → Timing → ℤ → Lease
first_lease me endpoint timing now_ms = record {
  owner = me;
  epoch = 1;
  expires_ms = add_i64 now_ms (ttl_ms timing);
  endpoint = endpoint;
  instance_id = "";
  state = none;
}

-- the record that renews an own, live lease, or takes an expired one over
abbrev pub next_lease : String → String → Timing → ℤ → Lease → Lease
next_lease me endpoint timing now_ms prev =
    let expired = is_expired_at prev now_ms in
    let mine = str_eq prev.owner me in
    record {
      owner = me;
      epoch = if mine && not expired then prev.epoch else (prev.epoch + 1) % u64_mod;
      expires_ms = add_i64 now_ms (ttl_ms timing);
      endpoint = endpoint;
      instance_id = prev.instance_id;
      state = none;
    }

is_contended : {Version : Type 0} → Acquired Version → Bool
is_contended Acquired.contended = true
is_contended _ = false

module _ {Body Version : Type 0} (wire : Wire Body) where
  decode_reply : GetReply Body Version → Prog Body Version (Res (Option (Lease × Version)))
  decode_reply (GetReply.found b v) = elim (wire.from_slice b) [
    | none ↦ throw Error.corrupt
    | some l ↦ pure (some (l, v))
  ]
  decode_reply GetReply.not_found = pure none
  decode_reply GetReply.get_error = throw Error.backend

  -- `read`
  unfoldable pub read : String → Prog Body Version (Res (Option (Lease × Version)))
  unfolding session_key decode_reply
  read name = get (session_key wire name) decode_reply

  -- `resolve`
  unfoldable pub resolve : String → Prog Body Version (Res (Option Lease))
  unfolding read
  resolve name = do found ← read name; pure (Option.map (λ p. p.0) found)

  written : PutReply Body Version → Prog Body Version (Res (Option Version))
  written (PutReply.stored v) = pure (some v)
  written PutReply.already_exists = pure none
  written PutReply.precondition = pure none
  written PutReply.put_error = throw Error.backend

  -- the `put` of lease.rs: both refusals are `none`
  unfoldable pub put_lease :
      String → Lease → PutMode Body Version → Prog Body Version (Res (Option Version))
  unfolding written
  put_lease path lease mode = elim (wire.to_vec lease) [
    | none ↦ throw Error.encode
    | some b ↦ put path b mode written
  ]

  -- the tail of `acquire`: the write, and what its answer means
  write_acquired :
      String → Lease → PutMode Body Version → Prog Body Version (Res (Acquired Version))
  unfolding put_lease
  write_acquired path lease mode = do
    stored ← put_lease path lease mode
    pure (elim stored [
      | some v ↦ Acquired.held (record { lease = lease; version = v })
      | none ↦ Acquired.contended
    ])

  acquire_found :
      String
      → String
      → String
      → Timing
      → ℤ
      → Option (Lease × Version)
      → Prog Body Version (Res (Acquired Version))
  unfolding write_acquired
  acquire_found path me endpoint timing now_ms none =
      write_acquired path (first_lease me endpoint timing now_ms) PutMode.create
  acquire_found path me endpoint timing now_ms (some (prev, version)) =
      if not (is_expired_at prev now_ms) && not (str_eq prev.owner me)
      then pure (Acquired.held_by_other prev.owner prev.expires_ms)
      else write_acquired path (next_lease me endpoint timing now_ms prev) (PutMode.update version)

  -- `acquire`
  unfoldable pub acquire :
      String → String → String → Timing → ℤ → Prog Body Version (Res (Acquired Version))
  unfolding read acquire_found session_key
  acquire name me endpoint timing now_ms = do
    lift (validate timing)
    found ← read name
    acquire_found (session_key wire name) me endpoint timing now_ms found

  -- a write of `lease` fenced by the version that is held
  fenced_write : String → Held Version → Lease → Prog Body Version (Res (Renewed Version))
  unfolding put_lease session_key
  fenced_write name held lease = do
    stored ← put_lease (session_key wire name) lease (PutMode.update held.version)
    pure (elim stored [
      | some v ↦ Renewed.held (record { lease = lease; version = v })
      | none ↦ Renewed.fenced
    ])

  -- `renew`
  unfoldable pub renew :
      String → Held Version → Timing → ℤ → Option String → Prog Body Version (Res (Renewed Version))
  unfolding fenced_write
  renew name held timing now_ms state =
      let lease = held.lease in
      fenced_write name held
        (record lease { expires_ms = add_i64 now_ms (ttl_ms timing); state = state })

  -- `stamp_state`
  unfoldable pub stamp_state :
      String → Held Version → Option String → Prog Body Version (Res (Renewed Version))
  unfolding fenced_write
  stamp_state name held state =
      let lease = held.lease in fenced_write name held (record lease { state = state })

  -- `set_instance`
  unfoldable pub set_instance :
      String → Held Version → String → Prog Body Version (Res (Renewed Version))
  unfolding fenced_write
  set_instance name held instance_id =
      let lease = held.lease in fenced_write name held (record lease { instance_id = instance_id })

  -- `release`
  unfoldable pub release : String → Held Version → Prog Body Version (Res (Unit {0}))
  unfolding put_lease session_key
  release name held =
      let lease = held.lease in
      do
        stored ←
            put_lease (session_key wire name) (record lease { expires_ms = pos 0 })
              (PutMode.update held.version)
        pure tt

  -- the loop of `acquire_with_retry` over the clock readings of the attempts that are left; the
  -- jittered sleep between two attempts leaves no trace in the store
  retry :
      String
      → String
      → String
      → Timing
      → ℕ
      → (ℕ → ℤ)
      → Acquired Version
      → Prog Body Version (Res (Acquired Version))
  unfolding acquire is_contended
  retry name me endpoint timing zero clock last = pure last
  retry name me endpoint timing (suc left) clock last = do
    outcome ← acquire name me endpoint timing (clock left)
    let rest = retry name me endpoint timing left clock outcome
    if is_contended outcome then rest else pure outcome

  -- `acquire_with_retry`; `clock` gives the reading of the attempt before which so many are left
  unfoldable pub acquire_with_retry :
      String → String → String → Timing → ℕ → (ℕ → ℤ) → Prog Body Version (Res (Acquired Version))
  unfolding retry
  acquire_with_retry name me endpoint timing attempts clock =
      retry name me endpoint timing (max attempts 1) clock Acquired.contended
