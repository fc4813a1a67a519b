-- ===== src/Runtime/Observed/Accepted.antt =====
-- The writes of a Rollout's report, at the release service: what findReleaseStep of
-- internal/release/service/release.go makes of them on the steps of a release.
use devflow_service.Base.{
  All, All-append, All-mono, Bool-cases, List, Option, [], inl, inr, map, negsuc, none, pos, refl,
  some, true, ℤ, ◌++◌, ◌∷◌, ◌≡◌,
}
use devflow_service.Release.Steps.{default_release_steps}
use devflow_service.Release.Steps.Canonical.{
  align_with, infer_release_type, normalize_release_steps,
}
use devflow_service.Release.Steps.Canonical.Laws.{
  aligned, last_with_key, normalize_release_steps-aligned,
}
use devflow_service.Release.Steps.Keys.{normalize_release_step_key}
use devflow_service.Release.Steps.Update.{find_release_step, find_step, step_matches}
use devflow_service.Release.Types.{
  ReleaseStep, ReleaseType, blue_green, canary, release_strategy_to_type, release_upgrade,
}
use devflow_service.Runtime.Observed.{NormalizedReleaseObservedState, ReleaseStepWrite}
use devflow_service.Runtime.Observed.BlueGreen.{
  derive_blue_green_state, is_failed_phase, is_healthy_phase, phase_text,
}
use devflow_service.Runtime.Observed.Canary.{derive_canary_state, progressing_canary}
use devflow_service.Runtime.Observed.Known.{
  AreSteps, found_step, has_step, normalize_rollout-known, type_of,
}
use devflow_service.Runtime.Observed.Normalize.{normalize_rollout}
use devflow_service.Runtime.Observed.Rollouts.{Rollout}
use devflow_service.Text.{Text, text_eq}

abbrev pub end_writes : Option ReleaseStepWrite → List ReleaseStepWrite
end_writes none = []
end_writes (some w) = w ∷ []

-- The step writes of a report, and the one that ends the release.
abbrev pub all_writes : NormalizedReleaseObservedState → List ReleaseStepWrite
all_writes state = state.step_writes ++ end_writes state.finalize_state

-- `findReleaseStep` finds the step of each write.
abbrev pub AreFound : List ReleaseStep → List ReleaseStepWrite → Type 0
AreFound steps writes =
    All (λ (w : ReleaseStepWrite). found_step (find_release_step steps w.step_code) ≡ true) writes

-- The kind that the report takes the release to be: without a Rollout, canary.
abbrev pub kind_of : Option Rollout → ReleaseType
kind_of none = canary
kind_of (some r) = type_of r

step_matches-aligned :
    (key : Text) (e : ReleaseStep) (o : Option ReleaseStep)
    → step_matches key (align_with e o) ≡ step_matches key e
unfolding step_matches
step_matches-aligned key e none = refl
step_matches-aligned key e (some actual) = refl

find_step-aligned :
    (key : Text) (steps canonical : List ReleaseStep)
    → found_step (find_step key (map (aligned steps) canonical))
      ≡ found_step (find_step key canonical)
unfolding find_step
find_step-aligned key steps [] = refl
find_step-aligned key steps (e ∷ canonical) = elim (Bool-cases (step_matches key e)) [
  | inl here ↦ rw (step_matches-aligned key e (last_with_key e.code steps), here) refl
  | inr later ↦
      rw (step_matches-aligned key e (last_with_key e.code steps), later)
        (find_step-aligned key steps canonical)
]

rollout_steps :
    (strategy release_action : Text) (steps : List ReleaseStep) (o : Option Rollout)
    → release_strategy_to_type strategy ≡ kind_of o
    → default_release_steps (infer_release_type strategy steps) release_action
      ≡ default_release_steps (kind_of o) release_upgrade
unfolding infer_release_type default_release_steps
rollout_steps strategy release_action steps none e = rw e refl
rollout_steps strategy release_action steps (some r) e = elim (Bool-cases r.blue_green) [
  | inl b ↦ rw (e, b) refl
  | inr c ↦ rw (e, c) refl
]

loaded-found :
    (strategy release_action : Text) (steps : List ReleaseStep) (o : Option Rollout) (code : Text)
    → release_strategy_to_type strategy ≡ kind_of o
    → has_step (kind_of o) code ≡ true
    → found_step (find_release_step (normalize_release_steps strategy release_action steps) code)
      ≡ true
unfolding has_step find_release_step
loaded-found strategy release_action steps o code kind h =
    rw
      (
        normalize_release_steps-aligned strategy release_action steps,
        rollout_steps strategy release_action steps o kind,
        find_step-aligned (normalize_release_step_key code) steps
            (default_release_steps (kind_of o) release_upgrade),
      )
      h

progressing_end-known :
    (r : Rollout) (index : Option ℤ)
    → AreSteps canary (end_writes (progressing_canary r index).finalize_state)
progressing_end-known r none = tt
progressing_end-known r (some (negsuc n)) = tt
progressing_end-known r (some (pos n)) = tt

canary_end-known :
    (r : Rollout) → AreSteps canary (end_writes (derive_canary_state r).finalize_state)
unfolding derive_canary_state has_step normalize_release_step_key step_matches text_eq
canary_end-known r = elim (Bool-cases (is_healthy_phase (phase_text r))) [
  | inl e ↦ rw (derive_canary_state, e) (refl, tt)
  | inr e ↦ elim (Bool-cases (is_failed_phase (phase_text r))) [
    | inl p ↦ rw (derive_canary_state, e) (rw p (refl, tt))
    | inr p ↦ rw (derive_canary_state, e) (rw p (progressing_end-known r r.current_step_index))
  ]
]

blue_green_end-known :
    (r : Rollout) → AreSteps blue_green (end_writes (derive_blue_green_state r).finalize_state)
unfolding derive_blue_green_state has_step normalize_release_step_key step_matches text_eq
blue_green_end-known r = elim (Bool-cases (is_healthy_phase (phase_text r))) [
  | inl e ↦ rw (derive_blue_green_state, e) (refl, tt)
  | inr e ↦ elim (Bool-cases (is_failed_phase (phase_text r))) [
    | inl p ↦ rw (derive_blue_green_state, e) (rw p (refl, tt))
    | inr p ↦ rw (derive_blue_green_state, e) (rw p tt)
  ]
]

module _ (namespace observed_name primary_name : Text) where
  rollout_end-known :
      (r : Rollout)
      → AreSteps (type_of r) (
          end_writes
            (normalize_rollout namespace observed_name primary_name (some r)).finalize_state)
  unfolding normalize_rollout
  rollout_end-known r = elim (Bool-cases r.blue_green) [
    | inl e ↦ rw e (blue_green_end-known r)
    | inr e ↦ rw e (canary_end-known r)
  ]

  missing-known :
      AreSteps canary (all_writes (normalize_rollout namespace observed_name primary_name none))
  unfolding normalize_rollout has_step normalize_release_step_key step_matches text_eq
  missing-known = (refl, tt)

  report-known :
      (o : Option Rollout)
      → AreSteps (kind_of o) (all_writes (normalize_rollout namespace observed_name primary_name o))
  report-known none = missing-known
  report-known (some r) =
      let state = normalize_rollout namespace observed_name primary_name (some r) in
      All-append (λ (w : ReleaseStepWrite). has_step (type_of r) w.step_code ≡ true)
        state.step_writes (end_writes state.finalize_state)
        (normalize_rollout-known namespace observed_name primary_name r) (rollout_end-known r)

-- The release service finds the step of each write that the report on a Rollout makes, the write
-- that ends the release included, on the steps of any release whose strategy is of the kind of that
-- Rollout, as `loadRelease` aligns them; and where no Rollout is found, on those of any canary
-- release.
pub normalize_rollout-AreFound :
    (namespace observed_name primary_name strategy release_action : Text) (steps : List ReleaseStep)
    (o : Option Rollout)
    → release_strategy_to_type strategy ≡ kind_of o
    → AreFound
        (normalize_release_steps strategy release_action steps)
        (all_writes (normalize_rollout namespace observed_name primary_name o))
normalize_rollout-AreFound namespace observed_name primary_name strategy release_action steps o
      kind =
    All-mono (λ (w : ReleaseStepWrite). has_step (kind_of o) w.step_code ≡ true)
      (λ (w : ReleaseStepWrite).
        found_step
          (find_release_step (normalize_release_steps strategy release_action steps) w.step_code)
        ≡ true)
      (λ (w : ReleaseStepWrite) h. loaded-found strategy release_action steps o w.step_code kind h)
      (all_writes (normalize_rollout namespace observed_name primary_name o))
      (report-known namespace observed_name primary_name o)
