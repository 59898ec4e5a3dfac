-- ===== src/Machine/Tests.antt =====
-- Concrete moves of the two machines of crates/barista-node-agent/src/state_machine.rs.
use barista_sh.Base.{true, ◌≡◌, ◌↔◌, refl}
use barista_sh.Contract.{InstanceState, OperationState}
use barista_sh.Machine.Instance.{is_terminal, can_transition}
use barista_sh.Machine.Operation.{op_is_settled}
use barista_sh.Machine.Lifecycle.{
  ◌⟶◌, Reach, here, next, IsGone, can_transition_iff, terminal_never_returns,
}
use barista_sh.Machine.Settling.{here, next}

can_transition_iff_example :
    (can_transition InstanceState.running InstanceState.pausing ≡ true)
    ↔ (InstanceState.running ⟶ InstanceState.pausing)
can_transition_iff_example = can_transition_iff InstanceState.running InstanceState.pausing

failed_is_terminal : is_terminal InstanceState.failed ≡ true
unfolding is_terminal
failed_is_terminal = refl

failed_to_destroyed : Reach InstanceState.failed InstanceState.destroyed
unfolding can_transition
failed_to_destroyed = next {t = InstanceState.destroying} (next here refl) refl

terminal_never_returns_example :
    IsGone InstanceState.destroyed
    × (InstanceState.failed ≡ InstanceState.destroyed
        → InstanceState.destroyed ≡ InstanceState.destroyed)
terminal_never_returns_example = terminal_never_returns failed_is_terminal failed_to_destroyed

canceled_is_settled : op_is_settled OperationState.canceled ≡ true
unfolding op_is_settled
canceled_is_settled = refl
