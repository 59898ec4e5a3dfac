-- ===== src/Contract.antt =====
-- The enums of the wire contract that the node agent branches on
-- (crates/barista-proto/src/generated/barista.node.v1alpha1.rs), with the integer that each
-- constructor is cast to by `as i32`; two values are compared through it.
pub mod Spec
use barista_sh.Base.{ℕ, Bool, true, List, [], ◌∷◌, ◌≡◌, ◌==◌, all, arith}

pub data InstanceState : Type 0 where
  unspecified creating created starting running checkpointing pausing : InstanceState
  paused resuming stopping stopped destroying destroyed failed : InstanceState

pub data OperationState : Type 0 where
  unspecified queued running done failed awaiting_input canceled : OperationState

pub data ErrorReason : Type 0 where
  unspecified invalid_spec template_not_found cpu_class_mismatch bundle_mismatch : ErrorReason
  capability_missing concurrent_operation guest_unreachable hook_timeout : ErrorReason
  resources_exhausted snapshot_invalidated substrate_unavailable cursor_too_old : ErrorReason
  snapshot_name_conflict fork_mode_unavailable capsule_verification_failed : ErrorReason
  capsule_incompatible capsule_not_found object_store_unavailable epoch_revoked : ErrorReason

abbrev pub instance_state_code : InstanceState → ℕ
instance_state_code InstanceState.unspecified = 0
instance_state_code InstanceState.creating = 1
instance_state_code InstanceState.created = 2
instance_state_code InstanceState.starting = 3
instance_state_code InstanceState.running = 4
instance_state_code InstanceState.checkpointing = 5
instance_state_code InstanceState.pausing = 6
instance_state_code InstanceState.paused = 7
instance_state_code InstanceState.resuming = 8
instance_state_code InstanceState.stopping = 9
instance_state_code InstanceState.stopped = 10
instance_state_code InstanceState.destroying = 11
instance_state_code InstanceState.destroyed = 12
instance_state_code InstanceState.failed = 13

abbrev pub operation_state_code : OperationState → ℕ
operation_state_code OperationState.unspecified = 0
operation_state_code OperationState.queued = 1
operation_state_code OperationState.running = 2
operation_state_code OperationState.done = 3
operation_state_code OperationState.failed = 4
operation_state_code OperationState.awaiting_input = 5
operation_state_code OperationState.canceled = 6

abbrev pub instance_state_eq : InstanceState → InstanceState → Bool
instance_state_eq a b = instance_state_code a == instance_state_code b

abbrev pub operation_state_eq : OperationState → OperationState → Bool
operation_state_eq a b = operation_state_code a == operation_state_code b

-- Every instance state, as the tests of state_machine.rs list them.
abbrev pub all_instance_states : List InstanceState
all_instance_states =
    InstanceState.unspecified ∷ InstanceState.creating ∷ InstanceState.created
    ∷ InstanceState.starting ∷ InstanceState.running ∷ InstanceState.checkpointing
    ∷ InstanceState.pausing ∷ InstanceState.paused ∷ InstanceState.resuming ∷ InstanceState.stopping
    ∷ InstanceState.stopped ∷ InstanceState.destroying ∷ InstanceState.destroyed
    ∷ InstanceState.failed ∷ []

-- A test that passes on the whole list passes on every state.
pub all-InstanceState :
    (p : InstanceState → Bool) (s : InstanceState) → all p all_instance_states ≡ true → p s ≡ true
all-InstanceState p InstanceState.unspecified h = ground arith
all-InstanceState p _ h = ground arith

-- Two states with one code are one state.
pub instance_state_eq-eq : (a b : InstanceState) → instance_state_eq a b ≡ true → a ≡ b
instance_state_eq-eq InstanceState.unspecified b h = ground arith
instance_state_eq-eq _ b h = ground arith
