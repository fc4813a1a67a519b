-- ===== src/Runtime/Reconcile/Stalls.antt =====
-- When a running release fails because its Deployment is no longer observed.
use devflow_service.Base.{
  Bool-cases, [], arith, false, if◌then◌else◌, inl, inr, ltb, refl, some, true, ℕ, ◌&&◌, ◌-◌, ◌∷◌,
  ◌≡◌,
}
use devflow_service.Control.Timeout.{evaluate_timeout, minutes}
use devflow_service.Release.Types.{StepStatus}
use devflow_service.Runtime.Observed.{NormalizedReleaseObservedState, write_of}
use devflow_service.Runtime.Observed.Deployments.{observation_of}
use devflow_service.Runtime.Observed.Normalize.{take_writes}
use devflow_service.Runtime.Reconcile.{ReleaseRecord}
use devflow_service.Runtime.Reconcile.Timeouts.{apply_timeouts, may_time_out, timeout_decision}
use devflow_service.Runtime.Types.{RuntimeObservedWorkload}
use devflow_service.Text.{Text, codes, text_eq}

-- The report of a release that was last observed so long ago: only its state key is kept.
abbrev pub late_report : ℕ → NormalizedReleaseObservedState → NormalizedReleaseObservedState
late_report age state =
    let message =
      if ltb (minutes 10) age
      then codes "release rollout timed out"
      else codes "release observation stalled" in
    record {
      phase = StepStatus.failed;
      progress = 100;
      message = message;
      state_key = state.state_key;
      step_writes = write_of (codes "observe_rollout") StepStatus.failed 100 message ∷ [];
      finalize_state = some (
          write_of (codes "finalize_release") StepStatus.failed 100
            (codes "release finalized after timeout or observation stall"));
    }

observed_then :
    (phase : StepStatus) (message : Text) (at : ℕ)
    → (observation_of phase message at).observed_at ≡ at
observed_then StepStatus.succeeded message at = refl
observed_then StepStatus.failed message at = refl
observed_then StepStatus.running message at = refl
observed_then _ message at = refl

not_longer : (age : ℕ) → ltb (minutes 5) age ≡ false → ltb (minutes 10) age ≡ false
not_longer age h = ground arith

late_apply :
    (release : ReleaseRecord) (w : RuntimeObservedWorkload) (state : NormalizedReleaseObservedState)
    (now : ℕ)
    → may_time_out release w state ≡ true
    → ltb (minutes 5) (now - w.observed_at) ≡ true
    → apply_timeouts release w state now ≡ late_report (now - w.observed_at) state
unfolding apply_timeouts timeout_decision evaluate_timeout take_writes text_eq
late_apply release w state now may old =
    elim (Bool-cases (ltb (minutes 10) (now - w.observed_at))) [
      | inl long ↦ rw (may, long) refl
      | inr short ↦ rw (may, short, observed_then state.phase state.message w.observed_at, old) refl
    ]

early_apply :
    (release : ReleaseRecord) (w : RuntimeObservedWorkload) (state : NormalizedReleaseObservedState)
    (now : ℕ)
    → ltb (minutes 5) (now - w.observed_at) ≡ false
    → apply_timeouts release w state now ≡ state
unfolding apply_timeouts timeout_decision evaluate_timeout take_writes
early_apply release w state now early =
    let short = not_longer (now - w.observed_at) early in
    elim (Bool-cases (may_time_out release w state)) [
      | inl may ↦ rw (may, short, observed_then state.phase state.message w.observed_at, early) refl
      | inr idle ↦ rw idle refl
    ]

idle_apply :
    (release : ReleaseRecord) (w : RuntimeObservedWorkload) (state : NormalizedReleaseObservedState)
    (now : ℕ)
    → may_time_out release w state ≡ false
    → apply_timeouts release w state now ≡ state
unfolding apply_timeouts
idle_apply release w state now idle = rw idle refl

-- A running release with a Deployment on its way fails when the Deployment was last observed more
-- than five minutes ago: the whole report but its state key is then that of a failure, with a failed
-- end of the release, and its message says that the observation stalled, or that the rollout timed
-- out if it was more than ten minutes ago. Else the report stays as it is.
pub apply_timeouts_exact :
    (release : ReleaseRecord) (w : RuntimeObservedWorkload) (state : NormalizedReleaseObservedState)
    (now : ℕ)
    → apply_timeouts release w state now ≡ (
        if may_time_out release w state && ltb (minutes 5) (now - w.observed_at)
        then late_report (now - w.observed_at) state
        else state)
apply_timeouts_exact release w state now = elim (Bool-cases (may_time_out release w state)) [
  | inl may ↦ elim (Bool-cases (ltb (minutes 5) (now - w.observed_at))) [
    | inl old ↦ rw (may, old) (late_apply release w state now may old)
    | inr early ↦ rw (may, early) (early_apply release w state now early)
  ]
  | inr idle ↦ rw idle (idle_apply release w state now idle)
]
