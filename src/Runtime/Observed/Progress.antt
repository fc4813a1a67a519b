-- ===== src/Runtime/Observed/Progress.antt =====
-- The progress that a Rollout's report writes.
use devflow_service.Base.{
  All, All-append, Bool-cases, List, Option, [], arith, inl, inr, ltb, negsuc, none, pos, some, ℕ,
  ℤ, ◌==◌, ◌||◌, ◌∷◌, ◌≤◌,
}
use devflow_service.Release.Types.{StepStatus}
use devflow_service.Runtime.Observed.{ReleaseStepWrite, raised}
use devflow_service.Runtime.Observed.BlueGreen.{
  derive_blue_green_state, is_failed_phase, is_healthy_phase, phase_text,
}
use devflow_service.Runtime.Observed.Canary.{
  active_step, active_writes, canary_next_step, canary_progress_for_index, canary_step_for_index,
  canary_steps, canary_succeeded_writes_before, derive_canary_state, next_writes,
  progressing_canary, succeeded_before,
}
use devflow_service.Runtime.Observed.Normalize.{normalize_rollout}
use devflow_service.Runtime.Observed.Rollouts.{
  ReplicaSummary, Rollout, rollout_progress_candidate, rollout_replica_summary,
}
use devflow_service.Runtime.Store.Calls.{step}
use devflow_service.Text.{Text, text_eq, trim_space}

-- A running step is at 99 percent at most.
abbrev pub progress_limit : StepStatus → ℕ
progress_limit StepStatus.running = 99
progress_limit _ = 100

abbrev pub AreWithin : List ReleaseStepWrite → Type 0
AreWithin writes = All (λ (w : ReleaseStepWrite). w.progress ≤ progress_limit w.status) writes

raised-le : (progress : ℕ) (candidate : Option ℕ) → raised progress candidate ≤ 99
raised-le progress none = omega arith
raised-le progress (some n) = ground arith

candidate-le : (s : ReplicaSummary) (floor : ℕ) → rollout_progress_candidate s floor ≤ 99
unfolding rollout_progress_candidate
candidate-le s floor = elim (Bool-cases (ltb 0 s.desired)) [
  | inl e ↦ rw e (raised-le floor _)
  | inr e ↦ rw e (raised-le floor none)
]

index_progress-le : (index : ℤ) → canary_progress_for_index index ≤ 99
unfolding canary_progress_for_index
index_progress-le (pos n) = ground arith
index_progress-le (negsuc n) = omega arith

succeeded_before-within :
    (active : Text) (steps : List Text) → AreWithin (succeeded_before active steps)
unfolding succeeded_before
succeeded_before-within active [] = tt
succeeded_before-within active (step ∷ steps) = elim (Bool-cases (text_eq step active)) [
  | inl e ↦ rw e tt
  | inr e ↦ rw e ((omega arith), succeeded_before-within active steps)
]

next_writes-within :
    (step : Option Text) (progress : ℕ) (details : Text)
    → progress ≤ 99
    → AreWithin (next_writes step progress details)
next_writes-within none progress details h = tt
next_writes-within (some step) progress details h = (h, tt)

active_writes-within :
    (active : Text) (index progress : ℕ) (details : Text)
    → progress ≤ 99
    → AreWithin (active_writes active index progress details)
unfolding active_writes
active_writes-within active index progress details h =
    elim (Bool-cases (index == 1 || index == 3 || index == 5)) [
      | inl e ↦ rw e (omega arith, next_writes-within (canary_next_step active) progress details h)
      | inr e ↦ rw e (h, tt)
    ]

progressing-within :
    (r : Rollout) (index : Option ℤ) → AreWithin (progressing_canary r index).step_writes
unfolding canary_succeeded_writes_before
progressing-within r none = (candidate-le (rollout_replica_summary r) 20, tt)
progressing-within r (some (negsuc n)) = (candidate-le (rollout_replica_summary r) 20, tt)
progressing-within r (some (pos n)) =
    let active = canary_step_for_index (pos n) in
    All-append _ (canary_succeeded_writes_before active) _
      (succeeded_before-within active canary_steps)
      (active_writes-within active n (canary_progress_for_index (pos n)) (trim_space r.message)
        (index_progress-le (pos n)))

canary-within : (r : Rollout) → AreWithin (derive_canary_state r).step_writes
unfolding derive_canary_state canary_succeeded_writes_before
canary-within r = elim (Bool-cases (is_healthy_phase (phase_text r))) [
  | inl e ↦
      rw (derive_canary_state, e)
        (omega arith, (omega arith, (omega arith, (omega arith, (omega arith, tt)))))
  | inr e ↦ elim (Bool-cases (is_failed_phase (phase_text r))) [
    | inl p ↦
        rw (derive_canary_state, e)
          (rw p (
            All-append _ (canary_succeeded_writes_before (active_step r)) _
              (succeeded_before-within (active_step r) canary_steps) (omega arith, tt)))
    | inr p ↦ rw (derive_canary_state, e) (rw p (progressing-within r r.current_step_index))
  ]
]

blue_green-within : (r : Rollout) → AreWithin (derive_blue_green_state r).step_writes
unfolding derive_blue_green_state
blue_green-within r = elim (Bool-cases (is_healthy_phase (phase_text r))) [
  | inl e ↦
      rw (derive_blue_green_state, e) (omega arith, (omega arith, (omega arith, (omega arith, tt))))
  | inr e ↦ elim (Bool-cases (is_failed_phase (phase_text r))) [
    | inl p ↦ rw (derive_blue_green_state, e) (rw p (omega arith, tt))
    | inr p ↦
        rw (derive_blue_green_state, e)
          (rw p (omega arith, (candidate-le (rollout_replica_summary r) 25, tt)))
  ]
]

-- Whatever a Rollout reports, and whether there is one or not, no running step is written with
-- more than 99 percent, and no other step with more than 100: more ready replicas than desired, and
-- counts whose product wraps around, make no exception.
pub normalize_rollout-within :
    (namespace observed_name primary_name : Text) (r : Option Rollout)
    → AreWithin (normalize_rollout namespace observed_name primary_name r).step_writes
unfolding normalize_rollout
normalize_rollout-within namespace observed_name primary_name none = (omega arith, tt)
normalize_rollout-within namespace observed_name primary_name (some r) =
    elim (Bool-cases r.blue_green) [
      | inl e ↦ rw e (blue_green-within r)
      | inr e ↦ rw e (canary-within r)
    ]
