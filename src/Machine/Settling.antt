-- ===== src/Machine/Settling.antt =====
-- What the operation table of crates/barista-node-agent/src/state_machine.rs allows.
use barista_sh.Base.{true, false, ◌≡◌, ◌≢◌, ◌↔◌, ◌⊎◌, inl, inr, refl, arith}
use barista_sh.Contract.{OperationState}
use barista_sh.Machine.Operation.{op_is_in_flight, op_is_settled, op_can_transition}

-- The moves between two states in flight.
infix 40 ◌⇝◌
pub data ◌⇝◌ : OperationState → OperationState → Type 0 where
  pick_up : OperationState.queued ⇝ OperationState.running
  park : OperationState.running ⇝ OperationState.awaiting_input
  unpark : OperationState.awaiting_input ⇝ OperationState.running

⇝-legal : {s t : OperationState} → s ⇝ t → op_can_transition s t ≡ true
unfolding op_can_transition
⇝-legal pick_up = refl
⇝-legal park = refl
⇝-legal unpark = refl

settle-legal :
    (s t : OperationState)
    → op_is_in_flight s ≡ true
    → op_is_settled t ≡ true
    → op_can_transition s t ≡ true
unfolding op_is_in_flight op_can_transition
settle-legal s t h k = ground arith

legal-splits :
    (s t : OperationState)
    → op_can_transition s t ≡ true
    → (s ⇝ t) ⊎ ((op_is_in_flight s ≡ true) × (op_is_settled t ≡ true))
unfolding op_is_in_flight op_can_transition
legal-splits OperationState.queued OperationState.running h = inl pick_up
legal-splits OperationState.running OperationState.awaiting_input h = inl park
legal-splits OperationState.awaiting_input OperationState.running h = inl unpark
legal-splits _ _ h = inr (ground arith, ground arith)

-- An operation may move exactly when it is in flight and settles, or takes one of the three moves
-- between states in flight: queued starts, running parks on input, parked picks up again.
pub op_can_transition_iff :
    (s t : OperationState)
    → (op_can_transition s t ≡ true)
      ↔ ((s ⇝ t) ⊎ ((op_is_in_flight s ≡ true) × (op_is_settled t ≡ true)))
op_can_transition_iff s t =
    (legal-splits s t, elim [ inl e ↦ ⇝-legal e | inr (f, d) ↦ settle-legal s t f d ])

-- Several legal moves of an operation in a row.
pub data OpReach (s : OperationState) : OperationState → Type 0 where
  here : OpReach s s
  next : {t u : OperationState} → OpReach s t → op_can_transition t u ≡ true → OpReach s u

settled_stuck : (s t : OperationState) → op_is_settled s ≡ true → op_can_transition s t ≡ false
unfolding op_can_transition
settled_stuck s t h = ground arith

-- Settling is final: from a settled state legal moves reach nothing but that state itself.
pub settled_final : {s t : OperationState} → op_is_settled s ≡ true → OpReach s t → t ≡ s
settled_final h here = refl
settled_final {s = s} h (next {t = t} {u = u} r e) =
    ground (arith, settled_final h r, settled_stuck s u h)

-- Every operation state but the wire's zero value is in flight or settled, and none is both; the
-- zero value is neither, and no legal move starts or ends there.
pub in_flight_or_settled :
    (s : OperationState)
    → (s ≢ OperationState.unspecified → op_is_in_flight s ≢ op_is_settled s)
      × ((t : OperationState)
          → (op_can_transition OperationState.unspecified t ≡ false)
            × (op_can_transition s OperationState.unspecified ≡ false))
      × (op_is_in_flight OperationState.unspecified ≡ false)
      × (op_is_settled OperationState.unspecified ≡ false)
unfolding op_is_in_flight op_can_transition
in_flight_or_settled OperationState.unspecified =
    (λ h. absurd (h refl), λ t. (ground arith, ground arith), refl, refl)
in_flight_or_settled _ = (λ h e. cc, λ t. (ground arith, ground arith), refl, refl)
