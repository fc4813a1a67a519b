-- ===== src/Control/Engine/Laws.antt =====
-- What ApplyObservation of internal/release/control/engine.go accepts.
use devflow_service.Base.{
  List, Option, [], arith, false, none, refl, some, true, ◌↔◌, ◌∷◌, ◌≡◌, ◌⊎◌,
}
use devflow_service.Control.Engine.{
  Engine, StrategyController, apply_observation, apply_with, check_next, controller_for, ok,
}
use devflow_service.Control.Lifecycle.{LifecycleStatus, can_transition, is_terminal}
use devflow_service.Control.Lifecycle.Paths.{Follows, move, stop}
use devflow_service.Control.State.{ReleaseControlState, RuntimeObservation, TransitionDecision}

-- A decision that changes the state leads from a state that is not terminal along the table.
abbrev pub NextIsAllowed : ReleaseControlState → Option ReleaseControlState → Type 0
NextIsAllowed state none = Unit
NextIsAllowed state (some next) =
    (state.terminal ≡ false)
    × (is_terminal state.lifecycle_status ≡ false)
    × (can_transition state.lifecycle_status next.lifecycle_status ≡ true)

check_next-ok :
    (state : ReleaseControlState) (d : TransitionDecision) (n : Option ReleaseControlState)
    (r : TransitionDecision)
    → check_next state d n ≡ ok r
    → (r ≡ d) × NextIsAllowed state n
check_next-ok state d none r h = ground arith
check_next-ok state d (some next) r h = ground arith

check_next-allowed :
    (state : ReleaseControlState) (d : TransitionDecision) (n : Option ReleaseControlState)
    → NextIsAllowed state n
    → check_next state d n ≡ ok d
check_next-allowed state d none h = refl
check_next-allowed state d (some next) h = ground arith

-- A decision comes out exactly when a controller is registered for the strategy, the decision is
-- what it evaluates, and the next state, if there is one, is allowed.
pub apply_observation-ok :
    (e : Engine) (state : ReleaseControlState) (obs : RuntimeObservation) (d : TransitionDecision)
    → (apply_observation e state obs ≡ ok d) ↔ (
        (c : StrategyController) × (controller_for e state.strategy ≡ some c)
        × (d ≡ c.evaluate_observation state obs)
        × NextIsAllowed state d.next_state)
unfolding apply_observation
apply_observation-ok e state obs d = (forth, back)
  where
    forth :
        apply_observation e state obs ≡ ok d
        → (c : StrategyController) × (controller_for e state.strategy ≡ some c)
          × (d ≡ c.evaluate_observation state obs)
          × NextIsAllowed state d.next_state
    forth h = apply_with-ok (controller_for e state.strategy) h
      where
        apply_with-ok :
            (o : Option StrategyController)
            → apply_with state obs o ≡ ok d
            → (c : StrategyController) × (o ≡ some c)
              × (d ≡ c.evaluate_observation state obs)
              × NextIsAllowed state d.next_state
        apply_with-ok none h = absurd (cc)
        apply_with-ok (some c) h =
            let decision = c.evaluate_observation state obs in
            let (same, allowed) = check_next-ok state decision decision.next_state d h in
            (c, refl, same, rw same allowed)

    back :
        (c : StrategyController) × (controller_for e state.strategy ≡ some c)
          × (d ≡ c.evaluate_observation state obs)
          × NextIsAllowed state d.next_state
        → apply_observation e state obs ≡ ok d
    back (c, held, same, allowed) =
        rw (held, same)
          (check_next-allowed state (c.evaluate_observation state obs) _ (rw same at allowed))

-- One accepted observation that changes the state.
pub data Observed (e : Engine) : ReleaseControlState → ReleaseControlState → Type 0 where
  observed :
      {s t : ReleaseControlState} (obs : RuntimeObservation) (d : TransitionDecision)
      → apply_observation e s obs ≡ ok d
      → d.next_state ≡ some t
      → Observed e s t

pub data ObservedAll (e : Engine) : ReleaseControlState → ReleaseControlState → Type 0 where
  start : {s : ReleaseControlState} → ObservedAll e s s
  extend : {s t u : ReleaseControlState} → Observed e s t → ObservedAll e t u → ObservedAll e s u

pub Observed-allowed :
    {e : Engine} {s t : ReleaseControlState} → Observed e s t → NextIsAllowed s (some t)
Observed-allowed {e} (observed {s} {t} obs d h k) =
    let (c, held, same, allowed) = (apply_observation-ok e s obs d).0 h in rw k at allowed

-- Whatever controllers an engine has, and whatever they decide, the statuses of a release that it
-- moves follow the transition table.
pub ObservedAll-Follows :
    {e : Engine} {s t : ReleaseControlState}
    → ObservedAll e s t
    → (path : List LifecycleStatus) × Follows s.lifecycle_status path t.lifecycle_status
ObservedAll-Follows start = ([], stop)
ObservedAll-Follows (extend {s} {t} {u} o rest) =
    let (path, p) = ObservedAll-Follows rest in
    (t.lifecycle_status ∷ path, move (Observed-allowed o).2 p)

-- No engine changes a terminal state: after it there is no accepted observation with a next state.
pub terminal-not-Observed :
    {e : Engine} {s t : ReleaseControlState}
    → (s.terminal ≡ true) ⊎ (is_terminal s.lifecycle_status ≡ true)
    → ¬ (Observed e s t)
terminal-not-Observed h o = ground (arith, Observed-allowed o)
