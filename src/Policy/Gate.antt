-- ===== src/Policy/Gate.antt =====
-- `validate_grant_epoch` (crates/barista-node-agent/src/grants.rs), `resolve_ttl_action`
-- (reconcile.rs) and `ttl_deadline_ms` (ops.rs).
use barista_sh.Base.{
  ℕ, ◌+◌, ◌-◌, ◌*◌, ◌≤◌, ◌<◌, Bool, true, false, ◌||◌, ◌==◌, not, if◌then◌else◌, Option, none, some,
  ◌≡◌, ◌⊎◌, arith,
}
use barista_sh.Base.Int.{ℤ, pos, pos_part, ◌+ℤ◌, ◌≤ℤ◌, leb_ℤ, IsI64, i64_half}
use barista_sh.Contract.{ErrorReason}
use barista_sh.Journal.Rows.{Journal}
use barista_sh.Journal.Instances.{issue_execution_epoch}
use barista_sh.Journal.Settled.{Later}
use barista_sh.Journal.Epochs.{epochs_increase}

-- `validate_grant_epoch`: the reason of its refusal, if it refuses
unfoldable pub validate_grant_epoch : ℕ → ℕ → Option ErrorReason
validate_grant_epoch current presented =
    if (current == 0) || (presented == 0)
    then some ErrorReason.epoch_revoked
    else if not (presented == current)
    then some ErrorReason.epoch_revoked
    else none

-- A grant that is bound to one run's epoch is good for that run and no later one: it is accepted
-- under the epoch that was issued for it, and under every epoch that is issued later it is revoked.
pub old_grant_revoked :
    (j k : Journal)
    → Later (issue_execution_epoch j).1 k
    → (validate_grant_epoch (issue_execution_epoch j).0 (issue_execution_epoch j).0 ≡ none)
      × (validate_grant_epoch (issue_execution_epoch k).0 (issue_execution_epoch j).0
          ≡ some ErrorReason.epoch_revoked)
unfolding validate_grant_epoch
old_grant_revoked j k l =
    let (issued, later) = epochs_increase j k l in
    (ground (arith, issued), ground (arith, issued, later))

pub data TtlAction : Type 0 where
  unspecified pause stop destroy : TtlAction

-- `Resolved`; the flag says that the stop is a degradation
pub data Resolved : Type 0 where
  stop : Bool → Resolved
  destroy pause : Resolved

-- `resolve_ttl_action`
unfoldable pub resolve_ttl_action : TtlAction → Bool → Resolved
resolve_ttl_action TtlAction.destroy memory_snapshot = Resolved.destroy
resolve_ttl_action TtlAction.stop memory_snapshot = Resolved.stop false
resolve_ttl_action _ memory_snapshot =
    if memory_snapshot then Resolved.pause else Resolved.stop true

abbrev i64_max : ℤ
i64_max = pos (i64_half - 1)

-- `saturating_mul` and `saturating_add` of non-negative amounts
abbrev saturate : ℤ → ℤ
saturate z = if leb_ℤ z i64_max then z else i64_max

-- `ttl_deadline_ms` at the clock's reading
unfoldable pub ttl_deadline_ms : ℕ → ℤ → ℤ
ttl_deadline_ms ttl_seconds now =
    let seconds = saturate (pos ttl_seconds) in
    saturate (saturate (pos (pos_part seconds * 1000)) +ℤ now)

-- A deadline is an `i64` and never before the clock's reading, however large the time to live, and
-- it is exactly that many seconds later where this fits.
pub ttl_deadline_sound :
    (ttl_seconds n : ℕ)
    → n < i64_half
    → IsI64 (ttl_deadline_ms ttl_seconds (pos n))
      × (pos n ≤ℤ ttl_deadline_ms ttl_seconds (pos n))
      × ((ttl_deadline_ms ttl_seconds (pos n) ≡ pos (ttl_seconds * 1000 + n))
          ⊎ (i64_half ≤ ttl_seconds * 1000 + n))
unfolding ttl_deadline_ms ◌+ℤ◌
ttl_deadline_sound ttl_seconds n h = ((ground arith, ground arith), ground arith, ground arith)
