-- ===== src/Runtime/Observed/Known.antt =====
-- The steps that a Rollout's report writes are steps of the release.
use devflow_service.Base.{
  All, Bool, Bool-cases, List, Option, [], arith, false, if◌then◌else◌, inl, inr, map, negsuc, none,
  pos, refl, some, subst, suc, sym, true, zero, ℕ, ℤ, ◌++◌, ◌∷◌, ◌≡◌,
}
use devflow_service.Release.Steps.{default_release_steps}
use devflow_service.Release.Steps.Keys.{normalize_release_step_key}
use devflow_service.Release.Steps.Update.{find_release_step, step_matches}
use devflow_service.Release.Types.{
  ReleaseStep, ReleaseType, StepStatus, blue_green, canary, release_upgrade,
}
use devflow_service.Runtime.Observed.{ReleaseStepWrite, detailed_message, first_non_empty, write_of}
use devflow_service.Runtime.Observed.BlueGreen.{
  derive_blue_green_state, is_failed_phase, is_healthy_phase, phase_text,
}
use devflow_service.Runtime.Observed.Canary.{
  active_step, active_writes, canary_progress_for_index, canary_step_for_index,
  canary_succeeded_writes_before, derive_canary_state, failed_canary, index_or_zero,
  progressing_canary, stepping_canary, succeeded_before,
}
use devflow_service.Runtime.Observed.Normalize.{normalize_rollout}
use devflow_service.Runtime.Observed.Rollouts.{Rollout}
use devflow_service.Runtime.Store.Calls.{step}
use devflow_service.Text.{Text, codes, is_empty, replace_all, text_eq, trim_space}

abbrev pub found_step : Option ReleaseStep → Bool
found_step none = false
found_step (some step) = true

-- The steps of a new release of a type have a step of the code.
unfoldable pub has_step : ReleaseType → Text → Bool
unfolding find_release_step default_release_steps
has_step type code =
    found_step (find_release_step (default_release_steps type release_upgrade) code)

abbrev pub AreSteps : ReleaseType → List ReleaseStepWrite → Type 0
AreSteps type writes = All (λ (w : ReleaseStepWrite). has_step type w.step_code ≡ true) writes

-- An index past the last one.
abbrev pub late : ℕ → ℕ
late n = suc (suc (suc (suc (suc (suc (suc n))))))

pub late_writes :
    (active : Text) (n progress : ℕ) (details : Text)
    → active_writes active (late n) progress details
      ≡ write_of active StepStatus.running progress
          (detailed_message (replace_all b'_' b' ' active ++ codes " in progress") details)
        ∷ []
unfolding active_writes
late_writes active n progress details = ground arith

-- After the last index, the code names the first step again.
pub past_end :
    (n : ℕ)
    → canary_step_for_index (pos (suc (suc (suc (suc (suc (suc (suc n))))))))
      ≡ codes "deploy_canary"
unfolding canary_step_for_index
past_end n = ground arith

-- What holds of each step of a canary release holds of the one that an index names.
pub canary_step-elim :
    (P : Text → Type 0) (index : ℤ)
    → P (codes "deploy_canary")
    → P (codes "canary_10")
    → P (codes "canary_30")
    → P (codes "canary_60")
    → P (codes "canary_100")
    → P (canary_step_for_index index)
unfolding canary_step_for_index
canary_step-elim P (negsuc n) d a b c e = d
canary_step-elim P (pos zero) d a b c e = a
canary_step-elim P (pos (suc zero)) d a b c e = a
canary_step-elim P (pos (suc (suc zero))) d a b c e = b
canary_step-elim P (pos (suc (suc (suc zero)))) d a b c e = b
canary_step-elim P (pos (suc (suc (suc (suc zero))))) d a b c e = c
canary_step-elim P (pos (suc (suc (suc (suc (suc zero)))))) d a b c e = c
canary_step-elim P (pos (suc (suc (suc (suc (suc (suc zero))))))) d a b c e = e
canary_step-elim P (pos (suc (suc (suc (suc (suc (suc (suc n)))))))) d a b c e =
    subst P (sym (past_end n)) d

failed_canary-known :
    (r : Rollout)
    → AreSteps canary
        (failed_canary r (first_non_empty (active_step r ∷ codes "deploy_canary" ∷ []))).step_writes
unfolding has_step normalize_release_step_key step_matches text_eq canary_succeeded_writes_before
    succeeded_before first_non_empty trim_space is_empty
failed_canary-known r =
    canary_step-elim
      (λ active. AreSteps canary (
        canary_succeeded_writes_before active
        ++ write_of (first_non_empty (active ∷ codes "deploy_canary" ∷ [])) StepStatus.failed 100 (
            detailed_message
              (replace_all b'_' b' ' (first_non_empty (active ∷ codes "deploy_canary" ∷ []))
                ++ codes " failed")
              (trim_space r.message))
          ∷ []))
      (index_or_zero r.current_step_index) (refl, tt) (refl, (refl, tt)) (refl, (refl, (refl, tt)))
      (refl, (refl, (refl, (refl, tt)))) (refl, (refl, (refl, (refl, (refl, tt)))))

stepping_canary-known : (r : Rollout) (n : ℕ) → AreSteps canary (stepping_canary r n).step_writes
unfolding has_step normalize_release_step_key step_matches text_eq canary_succeeded_writes_before
    succeeded_before active_writes canary_step_for_index
stepping_canary-known r zero = (refl, (refl, tt))
stepping_canary-known r (suc zero) = (refl, (refl, (refl, tt)))
stepping_canary-known r (suc (suc zero)) = (refl, (refl, (refl, tt)))
stepping_canary-known r (suc (suc (suc zero))) = (refl, (refl, (refl, (refl, tt))))
stepping_canary-known r (suc (suc (suc (suc zero)))) = (refl, (refl, (refl, (refl, tt))))
stepping_canary-known r (suc (suc (suc (suc (suc zero))))) =
    (refl, (refl, (refl, (refl, (refl, tt)))))
stepping_canary-known r (suc (suc (suc (suc (suc (suc zero)))))) =
    (refl, (refl, (refl, (refl, (refl, tt)))))
stepping_canary-known r (suc (suc (suc (suc (suc (suc (suc n))))))) =
    let progress = canary_progress_for_index (pos (late n)) in
    subst
      (λ active. AreSteps canary (
        canary_succeeded_writes_before active
        ++ active_writes active (late n) progress (trim_space r.message)))
      (sym (past_end n))
      (rw (late_writes (codes "deploy_canary") n progress (trim_space r.message)) (refl, tt))

progressing_canary-known :
    (r : Rollout) (index : Option ℤ) → AreSteps canary (progressing_canary r index).step_writes
unfolding has_step normalize_release_step_key step_matches text_eq
progressing_canary-known r none = (refl, tt)
progressing_canary-known r (some (negsuc n)) = (refl, tt)
progressing_canary-known r (some (pos n)) = stepping_canary-known r n

derive_canary_state-known : (r : Rollout) → AreSteps canary (derive_canary_state r).step_writes
unfolding derive_canary_state has_step normalize_release_step_key step_matches text_eq
derive_canary_state-known r = elim (Bool-cases (is_healthy_phase (phase_text r))) [
  | inl e ↦ rw (derive_canary_state, e) (refl, (refl, (refl, (refl, (refl, tt)))))
  | inr e ↦ elim (Bool-cases (is_failed_phase (phase_text r))) [
    | inl p ↦ rw (derive_canary_state, e) (rw p (failed_canary-known r))
    | inr p ↦ rw (derive_canary_state, e) (rw p (progressing_canary-known r r.current_step_index))
  ]
]

derive_blue_green_state-known :
    (r : Rollout) → AreSteps blue_green (derive_blue_green_state r).step_writes
unfolding derive_blue_green_state has_step normalize_release_step_key step_matches text_eq
derive_blue_green_state-known r = elim (Bool-cases (is_healthy_phase (phase_text r))) [
  | inl e ↦ rw (derive_blue_green_state, e) (refl, (refl, (refl, (refl, tt))))
  | inr e ↦ elim (Bool-cases (is_failed_phase (phase_text r))) [
    | inl p ↦ rw (derive_blue_green_state, e) (rw p (refl, tt))
    | inr p ↦ rw (derive_blue_green_state, e) (rw p (refl, (refl, tt)))
  ]
]

-- The type of the release that a Rollout belongs to.
abbrev pub type_of : Rollout → ReleaseType
type_of r = if r.blue_green then blue_green else canary

-- Each step write that a Rollout's report makes names a default step of the Rollout's kind.
pub normalize_rollout-known :
    (namespace observed_name primary_name : Text) (r : Rollout)
    → AreSteps
        (type_of r)
        (normalize_rollout namespace observed_name primary_name (some r)).step_writes
unfolding normalize_rollout
normalize_rollout-known namespace observed_name primary_name r = elim (Bool-cases r.blue_green) [
  | inl e ↦ rw e (derive_blue_green_state-known r)
  | inr e ↦ rw e (derive_canary_state-known r)
]

-- The write of the report on a missing Rollout names no default step of a blue-green release.
pub missing_rollout-unknown :
    (namespace observed_name primary_name : Text)
    → map
        (λ (w : ReleaseStepWrite). has_step blue_green w.step_code)
        (normalize_rollout namespace observed_name primary_name none).step_writes
      ≡ false ∷ []
unfolding normalize_rollout has_step normalize_release_step_key step_matches text_eq
missing_rollout-unknown namespace observed_name primary_name = refl
