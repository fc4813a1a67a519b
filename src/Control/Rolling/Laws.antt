-- ===== src/Control/Rolling/Laws.antt =====
-- The rolling controller behind the engine: internal/release/strategy/rolling/controller.go and
-- ApplyObservation of internal/release/control/engine.go.
use devflow_service.Base.{
  Bool, [], arith, false, if◌then◌else◌, not, some, true, ◌&&◌, ◌||◌, ◌∷◌, ◌≡◌, ◌⊎◌,
}
use devflow_service.Control.Engine.{
  Engine, apply_observation, apply_with, controller_for, err, invalid_lifecycle_transition,
  new_engine, ok, terminal_state_mutation,
}
use devflow_service.Control.Lifecycle.{
  LifecycleStatus, can_transition, finalizing, is_terminal, paused, running,
}
use devflow_service.Control.Rolling.{evaluate_rolling, rolling_controller}
use devflow_service.Control.State.{
  ReleaseControlState, ReleaseStrategy, RuntimeObservation, no_transition_decision, rolling,
}

-- The observation says that the rollout has ended, well or badly.
abbrev pub finishes : RuntimeObservation → Bool
finishes obs = obs.terminal && (obs.healthy || obs.degraded)

-- The observation says that the rollout is on its way.
abbrev pub progresses : RuntimeObservation → Bool
progresses obs = obs.progressing && not obs.terminal

-- A rollout can end where the table leads to finalizing, or the release is finalizing already.
abbrev can_finalize : LifecycleStatus → Bool
can_finalize running = true
can_finalize paused = true
can_finalize finalizing = true
can_finalize _ = false

can_finalize_lem : (s : LifecycleStatus) → can_transition s finalizing ≡ can_finalize s
unfolding can_transition
can_finalize_lem s = ground arith

can_stay : (s : LifecycleStatus) → can_transition s s ≡ true
unfolding can_transition
can_stay s = ground arith

abbrev pub rolling_engine : Engine
rolling_engine = new_engine (some rolling_controller ∷ [])

rolling-registered :
    (s : ReleaseStrategy) → s ≡ rolling → controller_for rolling_engine s ≡ some rolling_controller
unfolding new_engine controller_for rolling_controller
rolling-registered s e = rw e (ground arith)

outcome :
    (s : ReleaseControlState) (obs : RuntimeObservation)
    → apply_with s obs (some rolling_controller) ≡ (
        if not (finishes obs || progresses obs)
        then ok no_transition_decision
        else if s.terminal || is_terminal s.lifecycle_status
        then err terminal_state_mutation
        else if finishes obs && not (can_finalize s.lifecycle_status)
        then err invalid_lifecycle_transition
        else ok (evaluate_rolling s obs))
unfolding evaluate_rolling rolling_controller
outcome s obs = ground (arith, can_finalize_lem s.lifecycle_status, can_stay s.lifecycle_status)

-- Every outcome of an observation of a rolling release: nothing to report changes nothing; any report
-- on a terminal release is refused; a rollout that ends is refused unless the release is running,
-- paused or finalizing; anything else is the controller's decision.
pub rolling_outcome :
    (s : ReleaseControlState) (obs : RuntimeObservation)
    → s.strategy ≡ rolling
    → apply_observation rolling_engine s obs ≡ (
        if not (finishes obs || progresses obs)
        then ok no_transition_decision
        else if s.terminal || is_terminal s.lifecycle_status
        then err terminal_state_mutation
        else if finishes obs && not (can_finalize s.lifecycle_status)
        then err invalid_lifecycle_transition
        else ok (evaluate_rolling s obs))
unfolding apply_observation
rolling_outcome s obs e = rw (rolling-registered s.strategy e) (outcome s obs)

-- The controller itself never ends a release: the next status is finalizing, or the one before.
pub rolling-not_terminal :
    (s : ReleaseControlState) (obs : RuntimeObservation) (t : ReleaseControlState)
    → (evaluate_rolling s obs).next_state ≡ some t
    → ((t.lifecycle_status ≡ finalizing) × (finishes obs ≡ true))
      ⊎ ((t.lifecycle_status ≡ s.lifecycle_status)
          × (progresses obs ≡ true)
          × (finishes obs ≡ false))
unfolding evaluate_rolling
rolling-not_terminal s obs t h = ground arith
