-- ===== src/Control/Lifecycle.antt =====
-- control_status.go and the transition table of control_rules.go.
pub mod Paths
use devflow_service.Base.{Bool, List, [], any, false, if◌then◌else◌, is_yes, true, ℕ_discrete, ◌∷◌}
use devflow_service.Text.{Text}

pub data LifecycleStatus : Type 0 where
  unset pending dispatching running paused finalizing succeeded failed : LifecycleStatus
  other : Text → LifecycleStatus

pub LifecycleStatus-discrete : Discrete LifecycleStatus
LifecycleStatus-discrete = hlevel ℕ_discrete

-- `LifecycleStatus.IsTerminal`.
abbrev pub is_terminal : LifecycleStatus → Bool
is_terminal succeeded = true
is_terminal failed = true
is_terminal _ = false

-- `allowedLifecycleTransitions`; a status that is no key of the map has no successor.
abbrev allowed_lifecycle_transitions : LifecycleStatus → List LifecycleStatus
allowed_lifecycle_transitions pending = dispatching ∷ []
allowed_lifecycle_transitions dispatching = running ∷ failed ∷ []
allowed_lifecycle_transitions running = paused ∷ finalizing ∷ []
allowed_lifecycle_transitions paused = running ∷ failed ∷ finalizing ∷ []
allowed_lifecycle_transitions finalizing = succeeded ∷ failed ∷ []
allowed_lifecycle_transitions _ = []

abbrev pub same_lifecycle : LifecycleStatus → LifecycleStatus → Bool
same_lifecycle a b = is_yes (LifecycleStatus-discrete a b)

-- `CanTransition`.
unfoldable pub can_transition : LifecycleStatus → LifecycleStatus → Bool
unfolding LifecycleStatus-discrete
can_transition from to =
    if same_lifecycle from to
    then true
    else any (λ next. same_lifecycle next to) (allowed_lifecycle_transitions from)
