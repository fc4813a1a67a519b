-- ===== src/Control/Engine.antt =====
-- internal/release/control/controller.go, engine.go and errors.go.
use devflow_service.Base.{List, Option, [], if◌then◌else◌, is_yes, none, not, some, ◌∷◌}
use devflow_service.Control.Lifecycle.{can_transition}
use devflow_service.Control.State.{
  ReleaseControlState, ReleaseStrategy, ReleaseStrategy-discrete, RuntimeObservation,
  TransitionDecision, validate_non_terminal_mutation,
}
use devflow_service.Control.Timeout.{TimeoutPolicy}
-- An error is its sentinel; the text that `fmt.Errorf` wraps it with is left out.
pub mod Laws
pub mod Finalizing

pub data EngineError : Type 0 where
  strategy_controller_not_found : ReleaseStrategy → EngineError
  terminal_state_mutation invalid_lifecycle_transition : EngineError

pub data EngineResult : Type 0 where
  ok : TransitionDecision → EngineResult
  err : EngineError → EngineResult

-- The interface `StrategyController`.
pub record StrategyController : Type 0 where
  pub strategy : ReleaseStrategy
  pub evaluate_observation : ReleaseControlState → RuntimeObservation → TransitionDecision
  pub timeout_policy : ReleaseControlState → TimeoutPolicy

-- The map `strategies`, the newest entry first.
abbrev pub Engine : Type 0
Engine = List StrategyController

abbrev register : Option StrategyController → Engine → Engine
register none e = e
register (some controller) e = controller ∷ e

new_engine_from : Engine → List (Option StrategyController) → Engine
new_engine_from e [] = e
new_engine_from e (controller ∷ controllers) = new_engine_from (register controller e) controllers

-- `NewEngine`; `none` is a nil controller.
unfoldable pub new_engine : List (Option StrategyController) → Engine
unfolding new_engine_from
new_engine = new_engine_from []

-- `controllerFor`.
unfoldable pub controller_for : Engine → ReleaseStrategy → Option StrategyController
controller_for [] strategy = none
controller_for (c ∷ e) strategy =
    if is_yes (ReleaseStrategy-discrete c.strategy strategy)
    then some c
    else controller_for e strategy

abbrev pub check_next :
    ReleaseControlState → TransitionDecision → Option ReleaseControlState → EngineResult
check_next state decision none = ok decision
check_next state decision (some next) =
    if not (validate_non_terminal_mutation state)
    then err terminal_state_mutation
    else if can_transition state.lifecycle_status next.lifecycle_status
    then ok decision
    else err invalid_lifecycle_transition

abbrev pub apply_with :
    ReleaseControlState → RuntimeObservation → Option StrategyController → EngineResult
apply_with state obs none = err (strategy_controller_not_found state.strategy)
apply_with state obs (some c) =
    let decision = c.evaluate_observation state obs in check_next state decision decision.next_state

-- `ApplyObservation`.
unfoldable pub apply_observation : Engine → ReleaseControlState → RuntimeObservation → EngineResult
apply_observation e state obs = apply_with state obs (controller_for e state.strategy)
