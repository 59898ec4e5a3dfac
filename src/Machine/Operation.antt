-- ===== src/Machine/Operation.antt =====
-- The operation state machine: `ALL_OP_STATES`, `OP_TRANSITIONS`, `op_is_in_flight`,
-- `op_is_settled` and `op_can_transition` of crates/barista-node-agent/src/state_machine.rs.
use barista_sh.Base.{Bool, true, false, ◌&&◌, ◌||◌, List, [], ◌∷◌, any, if◌then◌else◌}
use barista_sh.Contract.{OperationState, operation_state_eq}

abbrev pub all_op_states : List OperationState
all_op_states =
    OperationState.unspecified ∷ OperationState.queued ∷ OperationState.running
    ∷ OperationState.awaiting_input ∷ OperationState.done ∷ OperationState.failed
    ∷ OperationState.canceled ∷ []

abbrev pub op_transitions : List (OperationState × OperationState)
op_transitions =
    (OperationState.queued, OperationState.running)
    ∷ (OperationState.running, OperationState.awaiting_input)
    ∷ (OperationState.awaiting_input, OperationState.running)
    ∷ []

unfoldable pub op_is_in_flight : OperationState → Bool
op_is_in_flight OperationState.queued = true
op_is_in_flight OperationState.running = true
op_is_in_flight OperationState.awaiting_input = true
op_is_in_flight _ = false

unfoldable pub op_is_settled : OperationState → Bool
op_is_settled OperationState.done = true
op_is_settled OperationState.failed = true
op_is_settled OperationState.canceled = true
op_is_settled _ = false

unfoldable pub op_can_transition : OperationState → OperationState → Bool
unfolding op_is_settled
op_can_transition from to =
    if operation_state_eq from OperationState.unspecified
      || operation_state_eq to OperationState.unspecified
    then false
    else if op_is_settled from
    then false
    else if op_is_settled to
    then true
    else any (λ (a, b). operation_state_eq a from && operation_state_eq b to) op_transitions
