-- ===== src/Tests/Lifecycles.antt =====
-- The control plane.
use devflow_service.Base.{
  Bool, List, [], arith, false, map, none, refl, some, true, ◌+◌, ◌↔◌, ◌∷◌, ◌≡◌, ◌≢◌, ◌≤◌, ◌⊎◌,
}
use devflow_service.Control.Engine.{
  StrategyController, apply_observation, controller_for, err, invalid_lifecycle_transition, ok,
}
use devflow_service.Control.Engine.Finalizing.{PassesFinalizing, observed_success-PassesFinalizing}
use devflow_service.Control.Engine.Laws.{
  NextIsAllowed, Observed, ObservedAll, ObservedAll-Follows, apply_observation-ok, extend, observed,
  start,
}
use devflow_service.Control.Lifecycle.{
  LifecycleStatus, can_transition, dispatching, failed, finalizing, is_terminal, paused, pending,
  running, succeeded,
}
use devflow_service.Control.Lifecycle.Paths.{
  Follows, Follows-advances, Follows-terminal, advance_count, move, rank, reaches_success, stop,
}
use devflow_service.Control.Operation.{evaluate_operation_request, normalize_release_operation}
use devflow_service.Control.Operation.Laws.{Permitted, operation-spelling, operation_exact}
use devflow_service.Control.Rolling.{evaluate_rolling}
use devflow_service.Control.Rolling.Laws.{
  finishes, progresses, rolling-not_terminal, rolling_engine, rolling_outcome,
}
use devflow_service.Control.State.{
  ReleaseControlState, StepWrite, new_state_transition_decision, new_step_write, no_failure,
  rolling, rollout_timeout, with_failure, with_status,
}
use devflow_service.Control.Timeout.{TimeoutPolicy, evaluate_timeout, minutes}
use devflow_service.Control.Timeout.Exact.{Expired, timeout_exact, timeout_mono, timeout_outcome}
use devflow_service.Release.Types.{StepStatus}
use devflow_service.Tests.Data.{healthy_end, state_of}
use devflow_service.Text.{codes, to_lower, trim_space}

abbrev one_minute : TimeoutPolicy
one_minute = record {
  dispatch_timeout = minutes 1;
  progress_timeout = minutes 1;
  finalize_timeout = minutes 1;
  observation_stall_timeout = 0;
}

happy_path : Follows pending (dispatching ∷ running ∷ finalizing ∷ succeeded ∷ []) succeeded
unfolding can_transition
happy_path = move refl (move refl (move refl (move refl stop)))

Follows-advances_example :
    rank pending + advance_count pending (dispatching ∷ running ∷ finalizing ∷ succeeded ∷ [])
    ≤ rank succeeded
Follows-advances_example = Follows-advances happy_path

Follows-terminal_example : failed ≡ failed
Follows-terminal_example = Follows-terminal {from = failed} {to = failed} {path = []} stop refl

reaches_success_example : (path : List LifecycleStatus) × Follows paused path succeeded
reaches_success_example = reaches_success paused (omega arith) (λ e. cc)

rolled_out :
    apply_observation rolling_engine (state_of running) healthy_end
    ≡ ok (evaluate_rolling (state_of running) healthy_end)
rolled_out = rolling_outcome (state_of running) healthy_end refl

apply_observation-ok_example :
    (apply_observation rolling_engine (state_of running) healthy_end
      ≡ ok (evaluate_rolling (state_of running) healthy_end))
    ↔ ((c : StrategyController) × (controller_for rolling_engine rolling ≡ some c)
        × (evaluate_rolling (state_of running) healthy_end
            ≡ c.evaluate_observation (state_of running) healthy_end)
        × NextIsAllowed
            (state_of running)
            (evaluate_rolling (state_of running) healthy_end).next_state)
apply_observation-ok_example =
    apply_observation-ok rolling_engine (state_of running) healthy_end
      (evaluate_rolling (state_of running) healthy_end)

abbrev finalizing_state : ReleaseControlState
finalizing_state = record (state_of finalizing) { updated_at = 5 }

one_observation : Observed rolling_engine (state_of running) finalizing_state
unfolding evaluate_rolling
one_observation =
    observed healthy_end (evaluate_rolling (state_of running) healthy_end) rolled_out refl

ObservedAll-Follows_example : (path : List LifecycleStatus) × Follows running path finalizing
ObservedAll-Follows_example = ObservedAll-Follows (extend one_observation start)

rolling_outcome_example :
    apply_observation rolling_engine (state_of pending) healthy_end
    ≡ err invalid_lifecycle_transition
rolling_outcome_example = rolling_outcome (state_of pending) healthy_end refl

rolling-not_terminal_example :
    ((finalizing ≡ finalizing) × (finishes healthy_end ≡ true))
    ⊎ ((finalizing ≡ running) × (progresses healthy_end ≡ true) × (finishes healthy_end ≡ false))
unfolding evaluate_rolling
rolling-not_terminal_example =
    rolling-not_terminal (state_of running) healthy_end finalizing_state refl

timeout_exact_example :
    ((evaluate_timeout (state_of running) none one_minute (minutes 2)).state_changed ≡ true)
    ↔ Expired running (state_of running) none one_minute (minutes 2)
timeout_exact_example = timeout_exact (state_of running) none one_minute (minutes 2)

timeout_mono_example :
    (evaluate_timeout (state_of running) none one_minute (minutes 3)).state_changed ≡ true
unfolding evaluate_timeout
timeout_mono_example =
    timeout_mono (state_of running) none one_minute (minutes 2) (minutes 3) (omega arith) refl

abbrev timed_out_state : ReleaseControlState
timed_out_state =
    with_failure (with_status (state_of running) failed (minutes 2)) rollout_timeout
      (codes "release rollout timed out") (minutes 2)

timeout_outcome_example :
    (failed ≡ failed)
    × (◌≡◌ {A = Bool} true true)
    × (minutes 2 ≡ minutes 2)
    × (rollout_timeout ≢ no_failure)
    × (rolling ≡ rolling)
    × (map
          (λ (w : StepWrite). w.status)
          (evaluate_timeout (state_of running) none one_minute (minutes 2)).step_writes
        ≡ StepStatus.failed ∷ [])
unfolding evaluate_timeout
timeout_outcome_example =
    timeout_outcome (state_of running) none one_minute (minutes 2) timed_out_state refl

operation_exact_example :
    (((evaluate_operation_request (state_of running) (codes "pause")).allowed ≡ true)
      × ((evaluate_operation_request (state_of running) (codes "pause")).target_status ≡ paused))
    ↔ Permitted (normalize_release_operation (codes "pause")) (state_of running) paused
operation_exact_example = operation_exact (state_of running) (codes "pause") paused

operation-spelling_example :
    evaluate_operation_request (state_of running) (codes " PAUSE ")
    ≡ evaluate_operation_request (state_of running) (codes "pause")
unfolding to_lower trim_space
operation-spelling_example =
    operation-spelling (state_of running) (codes " PAUSE ") (codes "pause") refl

-- A controller that moves a release on by one status at each observation.
abbrev next_status : LifecycleStatus → LifecycleStatus
next_status pending = dispatching
next_status dispatching = running
next_status running = finalizing
next_status s = succeeded

abbrev stepwise : StrategyController
stepwise = record {
  strategy = rolling;
  evaluate_observation = λ s obs.
      new_state_transition_decision (state_of (next_status s.lifecycle_status))
        (new_step_write (codes "observe_rollout") StepStatus.running 50 []);
  timeout_policy = λ s. one_minute;
}

stepwise_registered : controller_for (stepwise ∷ []) rolling ≡ some stepwise
unfolding controller_for
stepwise_registered = ground arith

stepwise_step :
    (status : LifecycleStatus)
    → can_transition status (next_status status) ≡ true
    → is_terminal status ≡ false
    → Observed (stepwise ∷ []) (state_of status) (state_of (next_status status))
unfolding apply_observation
stepwise_step status allowed live =
    observed {s = state_of status} healthy_end
      (stepwise.evaluate_observation (state_of status) healthy_end)
      (rw (stepwise_registered, live, allowed) refl) refl

stepwise_run : ObservedAll (stepwise ∷ []) (state_of pending) (state_of succeeded)
unfolding can_transition
stepwise_run = extend (stepwise_step pending refl refl) (
    extend (stepwise_step dispatching refl refl) (
      extend (stepwise_step running refl refl) (extend (stepwise_step finalizing refl refl) start)))

observed_success-PassesFinalizing_example :
    PassesFinalizing (stepwise ∷ []) (state_of pending) (state_of succeeded)
observed_success-PassesFinalizing_example = observed_success-PassesFinalizing stepwise_run refl refl
