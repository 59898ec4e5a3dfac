-- ===== src/Machine/Lifecycle.antt =====
-- What the instance table of crates/barista-node-agent/src/state_machine.rs allows: its moves as
-- a relation, the states that a sequence of moves reaches, and what terminal means.
use barista_sh.Base.{true, false, ◌≡◌, ◌≢◌, ◌↔◌, ◌⊎◌, inr, refl, arith}
use barista_sh.Contract.{InstanceState}
use barista_sh.Machine.Instance.{is_transitional, is_terminal, can_transition}

-- The states in which an operation is executing.
pub data IsWorking : InstanceState → Type 0 where
  creating_works : IsWorking InstanceState.creating
  starting_works : IsWorking InstanceState.starting
  checkpointing_works : IsWorking InstanceState.checkpointing
  pausing_works : IsWorking InstanceState.pausing
  resuming_works : IsWorking InstanceState.resuming
  stopping_works : IsWorking InstanceState.stopping
  destroying_works : IsWorking InstanceState.destroying

-- The lifecycle as a diagram, written without the table.
infix 40 ◌⟶◌
pub data ◌⟶◌ : InstanceState → InstanceState → Type 0 where
  create : InstanceState.creating ⟶ InstanceState.created
  start : InstanceState.created ⟶ InstanceState.starting
  started : InstanceState.starting ⟶ InstanceState.running
  checkpoint : InstanceState.running ⟶ InstanceState.checkpointing
  checkpointed : InstanceState.checkpointing ⟶ InstanceState.running
  pause : InstanceState.running ⟶ InstanceState.pausing
  paused : InstanceState.pausing ⟶ InstanceState.paused
  resume : InstanceState.paused ⟶ InstanceState.resuming
  resumed : InstanceState.resuming ⟶ InstanceState.running
  stop : InstanceState.running ⟶ InstanceState.stopping
  stopped : InstanceState.stopping ⟶ InstanceState.stopped
  restart : InstanceState.stopped ⟶ InstanceState.starting
  destroy : {s : InstanceState} → s ≢ InstanceState.destroyed → s ⟶ InstanceState.destroying
  destroyed : {s : InstanceState} → s ≢ InstanceState.destroyed → s ⟶ InstanceState.destroyed
  fail : {s : InstanceState} → IsWorking s → s ⟶ InstanceState.failed

ruleset working = (
  creating_works, starting_works, checkpointing_works, pausing_works, resuming_works,
  stopping_works, destroying_works,
)

ruleset edges = (
  create, start, started, checkpoint, checkpointed, pause, paused, resume, resumed, stop, stopped,
  restart,
)

is_transitional-IsWorking : (s : InstanceState) → is_transitional s ≡ true → IsWorking s
unfolding is_transitional
is_transitional-IsWorking InstanceState.creating h = creating_works
is_transitional-IsWorking InstanceState.starting h = starting_works
is_transitional-IsWorking InstanceState.checkpointing h = checkpointing_works
is_transitional-IsWorking InstanceState.pausing h = pausing_works
is_transitional-IsWorking InstanceState.resuming h = resuming_works
is_transitional-IsWorking InstanceState.stopping h = stopping_works
is_transitional-IsWorking InstanceState.destroying h = destroying_works
is_transitional-IsWorking _ h = cc

IsWorking-is_transitional : {s : InstanceState} → IsWorking s → is_transitional s ≡ true
unfolding is_transitional
IsWorking-is_transitional creating_works = refl
IsWorking-is_transitional starting_works = refl
IsWorking-is_transitional _ = refl

⟶-can_transition : {s t : InstanceState} → s ⟶ t → can_transition s t ≡ true
unfolding can_transition
⟶-can_transition create = refl
⟶-can_transition (destroy {s = s} h) = ground arith
⟶-can_transition (destroyed {s = s} h) = ground arith
⟶-can_transition (fail w) = IsWorking-is_transitional w
⟶-can_transition _ = refl

can_transition-⟶ : (s t : InstanceState) → can_transition s t ≡ true → s ⟶ t
unfolding can_transition
can_transition-⟶ s InstanceState.destroying h = destroy (λ e. ground arith)
can_transition-⟶ s InstanceState.destroyed h = destroyed (λ e. ground arith)
can_transition-⟶ s InstanceState.failed h = fail (is_transitional-IsWorking s h)
can_transition-⟶ InstanceState.unspecified _ h = grind (arith, edges)
can_transition-⟶ _ _ h = grind (arith, edges)

-- The table allows a move from one instance state to another exactly when the lifecycle diagram
-- has that edge: the twelve named moves, a destroy from anywhere but `destroyed`, and a failure
-- from exactly the states in which an operation is executing.
pub can_transition_iff : (s t : InstanceState) → (can_transition s t ≡ true) ↔ (s ⟶ t)
can_transition_iff s t = (can_transition-⟶ s t, ⟶-can_transition)

-- Several legal moves in a row.
pub data Reach (s : InstanceState) : InstanceState → Type 0 where
  here : Reach s s
  next : {t u : InstanceState} → Reach s t → can_transition t u ≡ true → Reach s u

step : {s t u : InstanceState} → Reach s t → t ⟶ u → Reach s u
step r e = next r (⟶-can_transition e)

creating-Reach :
    (s : InstanceState) → s ≢ InstanceState.unspecified → Reach InstanceState.creating s
creating-Reach InstanceState.unspecified h = absurd (h refl)
creating-Reach InstanceState.creating h = here
creating-Reach InstanceState.created h = step here create
creating-Reach InstanceState.starting h = step (step here create) start
creating-Reach InstanceState.running h = step (step (step here create) start) started
creating-Reach InstanceState.checkpointing h =
    step (step (step (step here create) start) started) checkpoint
creating-Reach InstanceState.pausing h = step (step (step (step here create) start) started) pause
creating-Reach InstanceState.paused h =
    step (step (step (step (step here create) start) started) pause) paused
creating-Reach InstanceState.resuming h =
    step (step (step (step (step (step here create) start) started) pause) paused) resume
creating-Reach InstanceState.stopping h = step (step (step (step here create) start) started) stop
creating-Reach InstanceState.stopped h =
    step (step (step (step (step here create) start) started) stop) stopped
creating-Reach InstanceState.destroying h = step here (destroy (λ e. cc))
creating-Reach InstanceState.destroyed h = step here (destroyed (λ e. cc))
creating-Reach InstanceState.failed h = step here (fail creating_works)

unspecified_unreached :
    (s t : InstanceState) → can_transition s t ≡ true → t ≢ InstanceState.unspecified
unfolding can_transition
unspecified_unreached InstanceState.unspecified t h e = ground arith
unspecified_unreached _ t h e = ground arith

Reach-ne-unspecified :
    {s t : InstanceState}
    → s ≢ InstanceState.unspecified
    → Reach s t
    → t ≢ InstanceState.unspecified
Reach-ne-unspecified h here = h
Reach-ne-unspecified h (next {t = t} {u = u} r e) = unspecified_unreached t u e

-- From `creating`, legal moves reach every state except the wire's zero value `unspecified`.
pub creating_reaches :
    (s : InstanceState) → Reach InstanceState.creating s ↔ (s ≢ InstanceState.unspecified)
creating_reaches s = (Reach-ne-unspecified (λ e. cc), creating-Reach s)

terminal_moves :
    (s t : InstanceState)
    → is_terminal s ≡ true
    → can_transition s t ≡ true
    → (t ≡ InstanceState.destroying) ⊎ (t ≡ InstanceState.destroyed)
unfolding is_terminal can_transition
terminal_moves InstanceState.unspecified t h e = cc
terminal_moves _ t h e = ground arith

terminal_rest :
    (s : InstanceState)
    → is_terminal s ≡ true
    → (s ≢ InstanceState.unspecified) × (is_transitional s ≡ false)
unfolding is_terminal is_transitional
terminal_rest s h = (λ e. ground arith, ground arith)

no_way_forward :
    (s : InstanceState)
    → s ≢ InstanceState.unspecified
    → is_transitional s ≡ false
    → ((t : InstanceState)
        → can_transition s t ≡ true
        → (t ≡ InstanceState.destroying) ⊎ (t ≡ InstanceState.destroyed))
    → is_terminal s ≡ true
unfolding is_terminal is_transitional can_transition
no_way_forward InstanceState.unspecified u w f = absurd (u refl)
no_way_forward InstanceState.created u w f = ground (arith, f InstanceState.starting refl)
no_way_forward InstanceState.running u w f = ground (arith, f InstanceState.pausing refl)
no_way_forward InstanceState.paused u w f = ground (arith, f InstanceState.resuming refl)
no_way_forward InstanceState.stopped u w f = ground (arith, f InstanceState.starting refl)
no_way_forward _ u w f = ground arith

-- A state is terminal exactly when it is a real state, no operation is executing in it, and every
-- legal move out of it is the start or the end of a destroy.
pub is_terminal_iff :
    (s : InstanceState)
    → (is_terminal s ≡ true) ↔ (
        (s ≢ InstanceState.unspecified)
        × (is_transitional s ≡ false)
        × ((t : InstanceState)
            → can_transition s t ≡ true
            → (t ≡ InstanceState.destroying) ⊎ (t ≡ InstanceState.destroyed)))
is_terminal_iff s = (
  λ h. ((terminal_rest s h).0, (terminal_rest s h).1, λ t. terminal_moves s t h),
  λ (u, w, f). no_way_forward s u w f,
)

-- The states that a terminal instance can still be in.
abbrev pub IsGone : InstanceState → Type 0
IsGone s =
    (s ≡ InstanceState.failed) ⊎ (s ≡ InstanceState.destroying) ⊎ (s ≡ InstanceState.destroyed)

IsGone-step :
    (s t : InstanceState)
    → can_transition s t ≡ true
    → IsGone s
    → IsGone t × (s ≢ InstanceState.destroyed)
unfolding can_transition
IsGone-step InstanceState.unspecified t h g = ground arith
IsGone-step _ t h g = ground arith

is_terminal-IsGone : (s : InstanceState) → is_terminal s ≡ true → IsGone s
unfolding is_terminal
is_terminal-IsGone s h = ground arith

Reach-IsGone : {s t : InstanceState} → IsGone s → Reach s t → IsGone t
Reach-IsGone g here = g
Reach-IsGone g (next {t = t} {u = u} r e) = (IsGone-step t u e (Reach-IsGone g r)).0

Reach-destroyed :
    {s t : InstanceState} → s ≡ InstanceState.destroyed → Reach s t → t ≡ InstanceState.destroyed
Reach-destroyed d here = d
Reach-destroyed d (next {t = t} {u = u} r e) =
    absurd ((IsGone-step t u e (inr (inr (Reach-destroyed d r)))).1 (Reach-destroyed d r))

-- Once an instance is terminal no sequence of legal moves brings it back: it is failed, being
-- destroyed or destroyed from then on, and a destroyed instance stays destroyed.
pub terminal_never_returns :
    {s t : InstanceState}
    → is_terminal s ≡ true
    → Reach s t
    → IsGone t × (s ≡ InstanceState.destroyed → t ≡ InstanceState.destroyed)
terminal_never_returns {s = s} h r =
    (Reach-IsGone (is_terminal-IsGone s h) r, λ d. Reach-destroyed d r)
