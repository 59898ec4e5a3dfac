-- ===== src/Fleet/Record.antt =====
-- The data of crates/barista-fleet/src/lease.rs and the errors of its lib.rs. A `Duration` is its
-- number of nanoseconds, a wall-clock time an `i64` in milliseconds. Error texts are left out.
use Prim.Native.String.{String}
use barista_sh.Base.{ℕ, ◌*◌, ◌/◌, Bool, ◌||◌, ◌==◌, leb, if◌then◌else◌, Option}
use barista_sh.Base.Int.{ℤ, pos, leb_ℤ, wrap_i64}

pub data Error : Type 0 where
  backend corrupt encode config : Error

pub data Res {ℓ} (A : Type ℓ) : Type ℓ where
  ok : A → Res A
  err : Error → Res A

pub record Timing : Type 0 where
  pub ttl : ℕ
  pub renew_every : ℕ

abbrev pub nanos_per_sec : ℕ
nanos_per_sec = 1_000_000_000

-- `Timing::default`: 15 s and 5 s.
abbrev pub default_timing : Timing
default_timing = record { ttl = 15 * nanos_per_sec; renew_every = 5 * nanos_per_sec }

-- `Timing::validate`
unfoldable pub validate : Timing → Res (Unit {0})
validate t = if (t.renew_every == 0) || leb t.ttl t.renew_every then err config else ok tt

-- `timing.ttl.as_millis() as i64`
unfoldable pub ttl_ms : Timing → ℤ
ttl_ms t = wrap_i64 (pos (t.ttl / 1_000_000))

-- The object at `sessions/<name>`.
pub record Lease : Type 0 where
  pub owner : String
  pub epoch : ℕ  -- u64
  pub expires_ms : ℤ  -- i64
  pub endpoint : String
  pub instance_id : String
  pub state : Option String

-- `Lease::is_expired_at`
unfoldable pub is_expired_at : Lease → ℤ → Bool
is_expired_at l now_ms = leb_ℤ l.expires_ms now_ms

-- A lease that this node holds, with the version that fences its writes.
pub record Held (Version : Type 0) : Type 0 where
  pub lease : Lease
  pub version : Version

-- `Acquired`: what one attempt to own a name found.
pub data Acquired (Version : Type 0) : Type 0 where
  held : Held Version → Acquired Version
  held_by_other : String → ℤ → Acquired Version
  contended : Acquired Version

-- `Renewed`: what a write under a held lease found.
pub data Renewed (Version : Type 0) : Type 0 where
  held : Held Version → Renewed Version
  fenced : Renewed Version
