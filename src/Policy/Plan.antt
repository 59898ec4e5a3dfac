-- ===== src/Policy/Plan.antt =====
-- `OpKind` and `plan_transition` of crates/barista-node-agent/src/ops.rs.
use Prim.Native.String.{String}
use barista_sh.Base.{
  Bool, true, false, ◌&&◌, Option, none, some, if◌then◌else◌, ◌≡◌, ◌⊎◌, refl, inl, inr, arith,
  Bool-cases,
}
use barista_sh.Contract.{InstanceState, instance_state_eq, instance_state_eq-eq}
use barista_sh.Machine.Instance.{can_transition}

pub data OpKind : Type 0 where
  create start stop pause resume create_snapshot delete_snapshot destroy fork : OpKind

-- `OpKind::as_str`
unfoldable pub as_str : OpKind → String
as_str OpKind.create = "create"
as_str OpKind.start = "start"
as_str OpKind.stop = "stop"
as_str OpKind.pause = "pause"
as_str OpKind.resume = "resume"
as_str OpKind.create_snapshot = "create_snapshot"
as_str OpKind.delete_snapshot = "delete_snapshot"
as_str OpKind.destroy = "destroy"
as_str OpKind.fork = "fork"

-- `OpKind::touches_instance_state`
unfoldable pub touches_instance_state : OpKind → Bool
touches_instance_state OpKind.create_snapshot = false
touches_instance_state OpKind.delete_snapshot = false
touches_instance_state _ = true

-- `OpKind::states`: the state entered at submit, and the final one on success
unfoldable pub states : OpKind → InstanceState × InstanceState
states OpKind.create = (InstanceState.creating, InstanceState.created)
states OpKind.start = (InstanceState.starting, InstanceState.running)
states OpKind.stop = (InstanceState.stopping, InstanceState.stopped)
states OpKind.pause = (InstanceState.pausing, InstanceState.paused)
states OpKind.resume = (InstanceState.resuming, InstanceState.running)
states OpKind.create_snapshot = (InstanceState.checkpointing, InstanceState.running)
states OpKind.delete_snapshot = (InstanceState.unspecified, InstanceState.unspecified)
states OpKind.destroy = (InstanceState.destroying, InstanceState.destroyed)
states OpKind.fork = (InstanceState.creating, InstanceState.running)

is_delete_snapshot : OpKind → Bool
is_delete_snapshot OpKind.delete_snapshot = true
is_delete_snapshot _ = false

is_create_snapshot : OpKind → Bool
is_create_snapshot OpKind.create_snapshot = true
is_create_snapshot _ = false

-- `plan_transition`
unfoldable pub plan_transition : OpKind → InstanceState → InstanceState → Option InstanceState
unfolding is_delete_snapshot is_create_snapshot can_transition
plan_transition kind transitional from =
    if is_delete_snapshot kind
    then some from
    else if is_create_snapshot kind && instance_state_eq from InstanceState.paused
    then some InstanceState.paused
    else if can_transition from transitional
    then some transitional
    else none

-- The plan of a kind, from its own pair of states.
abbrev pub plan_of : OpKind → InstanceState → Option InstanceState
unfolding plan_transition states
plan_of kind from = plan_transition kind (states kind).0 from

-- What an operation's plan may be: to leave the instance where it is, or to take it along a legal
-- edge into a state from which both its success and its failure are legal.
abbrev pub Sensible : OpKind → InstanceState → InstanceState → Type 0
unfolding states
Sensible kind from recorded =
    ((recorded ≡ from) × (touches_instance_state kind ≡ false))
    ⊎ ((can_transition from recorded ≡ true)
        × (can_transition recorded (states kind).1 ≡ true)
        × (can_transition recorded InstanceState.failed ≡ true))

-- A plan that `ops::submit` makes for an instance that exists either moves nothing, and then the
-- kind is one of the two snapshot verbs, or takes a legal edge into a state that may legally become
-- the kind's final state and may legally fail.
pub plan_of-Sensible :
    (kind : OpKind) (from recorded : InstanceState)
    → plan_of kind from ≡ some recorded
    → Sensible kind from recorded
unfolding plan_transition states touches_instance_state can_transition
plan_of-Sensible OpKind.create from recorded h = absurd (ground arith)
plan_of-Sensible OpKind.fork from recorded h = absurd (ground arith)
plan_of-Sensible OpKind.delete_snapshot from recorded h = inl (ground arith, refl)
plan_of-Sensible OpKind.create_snapshot from recorded h =
    elim (Bool-cases (instance_state_eq from InstanceState.paused)) [
      | inl e ↦ inl (ground (arith, e, instance_state_eq-eq from InstanceState.paused e), refl)
      | inr e ↦ inr (ground (arith, e), ground (arith, e), ground (arith, e))
    ]
plan_of-Sensible _ from recorded h = inr (ground arith, ground arith, ground arith)
