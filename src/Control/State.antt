-- ===== src/Control/State.antt =====
-- control_state.go, control_failure.go, control_strategy.go and control_decision.go.
use devflow_service.Base.{
  Bool, List, Option, [], false, none, not, some, true, ℕ, ℕ_discrete, ◌||◌, ◌∷◌,
}
use devflow_service.Control.Lifecycle.{LifecycleStatus, is_terminal, pending}
use devflow_service.Release.Types.{StepStatus}
use devflow_service.Text.{Text}

pub data ReleaseStrategy : Type 0 where
  rolling blue_green canary : ReleaseStrategy
  other : Text → ReleaseStrategy

pub ReleaseStrategy-discrete : Discrete ReleaseStrategy
ReleaseStrategy-discrete = hlevel ℕ_discrete

pub data StrategyPhase : Type 0 where
  no_phase rolling_progressing : StrategyPhase

pub data FailureReason : Type 0 where
  no_failure dispatch_failed rollout_failed rollout_timeout : FailureReason
  finalize_failed observation_stalled : FailureReason

pub record ReleaseControlState : Type 0 where
  pub lifecycle_status : LifecycleStatus
  pub strategy : ReleaseStrategy
  pub strategy_phase : StrategyPhase
  pub failure_reason : FailureReason
  pub failure_message : Text
  pub terminal : Bool
  pub updated_at : ℕ

pub record RuntimeObservation : Type 0 where
  pub healthy : Bool
  pub progressing : Bool
  pub degraded : Bool
  pub terminal : Bool
  pub message : Text
  pub observed_at : ℕ

-- `NewInitialControlState`.
unfoldable pub new_initial_control_state : ReleaseStrategy → ℕ → ReleaseControlState
new_initial_control_state strategy now = record {
  lifecycle_status = pending;
  strategy = strategy;
  strategy_phase = no_phase;
  failure_reason = no_failure;
  failure_message = [];
  terminal = false;
  updated_at = now;
}

-- `WithStatus`, `WithPhase` and `WithFailure`, on a copy of the state.
abbrev pub with_status : ReleaseControlState → LifecycleStatus → ℕ → ReleaseControlState
with_status s next now = record s {
  lifecycle_status = next;
  terminal = is_terminal next;
  updated_at = now;
}

abbrev pub with_phase : ReleaseControlState → StrategyPhase → ℕ → ReleaseControlState
with_phase s next now = record s { strategy_phase = next; updated_at = now }

abbrev pub with_failure : ReleaseControlState → FailureReason → Text → ℕ → ReleaseControlState
with_failure s reason message now = record s {
  failure_reason = reason;
  failure_message = message;
  updated_at = now;
}

pub record StepWrite : Type 0 where
  pub step_code : Text
  pub status : StepStatus
  pub progress : ℕ
  pub message : Text

pub record TransitionDecision : Type 0 where
  pub state_changed : Bool
  pub next_state : Option ReleaseControlState
  pub step_writes : List StepWrite

-- `NoTransitionDecision`.
abbrev pub no_transition_decision : TransitionDecision
no_transition_decision = record { state_changed = false; next_state = none; step_writes = [] }

-- `NewStateTransitionDecision`, with one `NewStepWrite`.
abbrev pub new_state_transition_decision : ReleaseControlState → StepWrite → TransitionDecision
new_state_transition_decision next write = record {
  state_changed = true;
  next_state = some next;
  step_writes = write ∷ [];
}

-- `NewStepWrite`.
abbrev pub new_step_write : Text → StepStatus → ℕ → Text → StepWrite
new_step_write code status progress message = record {
  step_code = code;
  status = status;
  progress = progress;
  message = message;
}

-- `ValidateNonTerminalMutation`: true where it returns nil.
abbrev pub validate_non_terminal_mutation : ReleaseControlState → Bool
validate_non_terminal_mutation s = not (s.terminal || is_terminal s.lifecycle_status)
