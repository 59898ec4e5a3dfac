-- ===== src/Machine/Instance.antt =====
-- The instance state machine: `TRANSITIONS`, `is_transitional`, `is_terminal` and
-- `can_transition` of crates/barista-node-agent/src/state_machine.rs.
use barista_sh.Base.{Bool, true, false, ◌&&◌, ◌||◌, not, List, [], ◌∷◌, any, if◌then◌else◌}
use barista_sh.Contract.{InstanceState, instance_state_eq}

-- Legal moves, from and to; readiness is a separate flag.
abbrev pub transitions : List (InstanceState × InstanceState)
transitions =
    (InstanceState.creating, InstanceState.created)
    ∷ (InstanceState.created, InstanceState.starting)
    ∷ (InstanceState.starting, InstanceState.running)
    ∷ (InstanceState.running, InstanceState.checkpointing)
    ∷ (InstanceState.checkpointing, InstanceState.running)
    ∷ (InstanceState.running, InstanceState.pausing)
    ∷ (InstanceState.pausing, InstanceState.paused)
    ∷ (InstanceState.paused, InstanceState.resuming)
    ∷ (InstanceState.resuming, InstanceState.running)
    ∷ (InstanceState.running, InstanceState.stopping)
    ∷ (InstanceState.stopping, InstanceState.stopped)
    ∷ (InstanceState.stopped, InstanceState.starting)
    ∷ []

unfoldable pub is_transitional : InstanceState → Bool
is_transitional InstanceState.creating = true
is_transitional InstanceState.starting = true
is_transitional InstanceState.checkpointing = true
is_transitional InstanceState.pausing = true
is_transitional InstanceState.resuming = true
is_transitional InstanceState.stopping = true
is_transitional InstanceState.destroying = true
is_transitional _ = false

unfoldable pub is_terminal : InstanceState → Bool
is_terminal InstanceState.destroyed = true
is_terminal InstanceState.failed = true
is_terminal _ = false

unfoldable pub can_transition : InstanceState → InstanceState → Bool
unfolding is_transitional
can_transition from to =
    if instance_state_eq to InstanceState.destroying || instance_state_eq to InstanceState.destroyed
    then not (instance_state_eq from InstanceState.destroyed)
    else if instance_state_eq to InstanceState.failed
    then is_transitional from
    else any (λ (a, b). instance_state_eq a from && instance_state_eq b to) transitions
