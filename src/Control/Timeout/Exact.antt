-- ===== src/Control/Timeout/Exact.antt =====
-- When TimeoutEvaluator.Evaluate of internal/release/control/timeout_evaluator.go fires.
use devflow_service.Base.{
  Bool-cases, Option, [], arith, inl, inr, ltb, map, none, not, refl, some, true, ℕ, ◌&&◌, ◌+◌, ◌<◌,
  ◌↔◌, ◌∷◌, ◌≡◌, ◌≢◌, ◌≤◌, ◌⊎◌,
}
use devflow_service.Control.Lifecycle.{
  LifecycleStatus, can_transition, dispatching, failed, finalizing, running, same_lifecycle,
}
use devflow_service.Control.State.{
  ReleaseControlState, RuntimeObservation, StepWrite, no_failure, observation_stalled,
}
use devflow_service.Control.Timeout.{TimeoutPolicy, evaluate_timeout, scan_timeout}
use devflow_service.Release.Types.{StepStatus}

-- More than `timeout` has passed since `since`, and the check is enabled.
abbrev Overdue : ℕ → ℕ → ℕ → Type 0
Overdue now since timeout = (0 < timeout) × (since + timeout < now)

abbrev Stalled : Option RuntimeObservation → ℕ → ℕ → Type 0
Stalled none now timeout = ⊥
Stalled (some observation) now timeout = Overdue now observation.observed_at timeout

-- The deadline that applies in each status.
abbrev pub Expired :
    LifecycleStatus → ReleaseControlState → Option RuntimeObservation → TimeoutPolicy → ℕ → Type 0
Expired dispatching s last policy now = Overdue now s.updated_at policy.dispatch_timeout
Expired running s last policy now =
    Overdue now s.updated_at policy.progress_timeout
    ⊎ Stalled last now policy.observation_stall_timeout
Expired finalizing s last policy now = Overdue now s.updated_at policy.finalize_timeout
Expired _ s last policy now = ⊥

module _ (s : ReleaseControlState) (policy : TimeoutPolicy) (now : ℕ) where
  fires_when-Expired :
      (last : Option RuntimeObservation)
      → Expired s.lifecycle_status s last policy now
      → (evaluate_timeout s last policy now).state_changed ≡ true
  unfolding evaluate_timeout
  fires_when-Expired none h = ground arith
  fires_when-Expired (some observation) h = ground arith

  Expired-when_fires :
      (last : Option RuntimeObservation) (status : LifecycleStatus)
      → s.lifecycle_status ≡ status
      → (evaluate_timeout s last policy now).state_changed ≡ true
      → Expired status s last policy now
  unfolding evaluate_timeout
  Expired-when_fires none running e h = inl (ground arith)
  Expired-when_fires (some observation) running e h =
      elim (Bool-cases
        (ltb (s.updated_at + policy.progress_timeout) now && ltb 0 policy.progress_timeout)) [
          | inl over ↦ inl (ground arith)
          | inr under ↦ inr (ground arith)
        ]
  Expired-when_fires last dispatching e h = ground arith
  Expired-when_fires last finalizing e h = ground arith
  Expired-when_fires last _ e h = ground arith

-- The evaluator decides a change exactly when the deadline of the release's status has passed:
-- strictly more than an enabled timeout since the last update, or since the last observation.
pub timeout_exact :
    (s : ReleaseControlState) (last : Option RuntimeObservation) (policy : TimeoutPolicy) (now : ℕ)
    → ((evaluate_timeout s last policy now).state_changed ≡ true)
      ↔ Expired s.lifecycle_status s last policy now
timeout_exact s last policy now = (
  Expired-when_fires s policy now last s.lifecycle_status refl,
  fires_when-Expired s policy now last,
)

Expired-mono :
    (status : LifecycleStatus) (s : ReleaseControlState) (last : Option RuntimeObservation)
    (policy : TimeoutPolicy) (now later : ℕ)
    → now ≤ later
    → Expired status s last policy now
    → Expired status s last policy later
Expired-mono dispatching s last policy now later h x = omega arith
Expired-mono running s last policy now later h (inl x) = inl (omega arith)
Expired-mono running s none policy now later h (inr x) = absurd x
Expired-mono running s (some o) policy now later h (inr x) = inr (omega arith)
Expired-mono finalizing s last policy now later h x = omega arith
Expired-mono _ s last policy now later h x = absurd x

-- A release that has timed out stays timed out: a scan that runs later decides a change too.
pub timeout_mono :
    (s : ReleaseControlState) (last : Option RuntimeObservation) (policy : TimeoutPolicy)
    (now later : ℕ)
    → now ≤ later
    → (evaluate_timeout s last policy now).state_changed ≡ true
    → (evaluate_timeout s last policy later).state_changed ≡ true
timeout_mono s last policy now later h fired = (timeout_exact s last policy later).1 (
    Expired-mono s.lifecycle_status s last policy now later h
      ((timeout_exact s last policy now).0 fired))

-- What each change is: the release failed, terminal, now, with a reason, and one failed step.
pub timeout_outcome :
    (s : ReleaseControlState) (last : Option RuntimeObservation) (policy : TimeoutPolicy) (now : ℕ)
    (t : ReleaseControlState)
    → (evaluate_timeout s last policy now).next_state ≡ some t
    → (t.lifecycle_status ≡ failed)
      × (t.terminal ≡ true)
      × (t.updated_at ≡ now)
      × (t.failure_reason ≢ no_failure)
      × (t.strategy ≡ s.strategy)
      × (map (λ (w : StepWrite). w.status) (evaluate_timeout s last policy now).step_writes
          ≡ StepStatus.failed ∷ [])
unfolding evaluate_timeout
timeout_outcome s none policy now t h = ground arith
timeout_outcome s (some o) policy now t h = ground arith

-- A timeout of a running release makes a transition that the table refuses; one of a dispatching or
-- finalizing release makes an allowed one.
pub timeout-can_transition :
    (s : ReleaseControlState) (last : Option RuntimeObservation) (policy : TimeoutPolicy) (now : ℕ)
    (t : ReleaseControlState)
    → (evaluate_timeout s last policy now).next_state ≡ some t
    → can_transition s.lifecycle_status t.lifecycle_status
      ≡ not (same_lifecycle s.lifecycle_status running)
unfolding evaluate_timeout can_transition
timeout-can_transition s none policy now t h = ground arith
timeout-can_transition s (some o) policy now t h = ground arith

-- The scanner passes no observation, so it never reports a stalled one, whatever the policy.
pub scan-not_stalled :
    (s : ReleaseControlState) (policy : TimeoutPolicy) (now : ℕ) (t : ReleaseControlState)
    → (scan_timeout s policy now).next_state ≡ some t
    → t.failure_reason ≢ observation_stalled
unfolding scan_timeout
scan-not_stalled s policy now t h = ground arith
