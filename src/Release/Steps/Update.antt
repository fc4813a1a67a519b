-- ===== src/Release/Steps/Update.antt =====
-- The step lookups and writes of internal/release/service/release.go.
use devflow_service.Base.{Bool, List, Option, [], if◌then◌else◌, none, pos, some, ℕ, ℤ, ◌||◌, ◌∷◌}
use devflow_service.Release.Steps.Keys.{normalize_release_step_key}
use devflow_service.Release.Types.{ReleaseStep, StepStatus, succeeded}
use devflow_service.Text.{Text, text_eq}

-- The test of `findReleaseStep` and `applyReleaseStepUpdate` on one step; the key is normalised.
unfoldable pub step_matches : Text → ReleaseStep → Bool
step_matches key step = text_eq step.code key || text_eq (normalize_release_step_key step.name) key

unfoldable pub find_step : Text → List ReleaseStep → Option ReleaseStep
find_step key [] = none
find_step key (step ∷ steps) = if step_matches key step then some step else find_step key steps

-- `findReleaseStep`.
unfoldable pub find_release_step : List ReleaseStep → Text → Option ReleaseStep
unfolding find_step
find_release_step steps step_name = find_step (normalize_release_step_key step_name) steps

-- What `applyReleaseStepUpdate` and `UpdateStep` write.
pub record StepChange : Type 0 where
  pub status : StepStatus
  pub progress : ℤ
  pub message : Text
  pub start : Option ℕ
  pub end : Option ℕ

-- `if start != nil { steps[i].StartTime = start }`.
abbrev or_else {ℓ} : {A : Type ℓ} → Option A → Option A → Option A
or_else (some a) old = some a
or_else none old = old

unfoldable pub write_step : StepChange → ReleaseStep → ReleaseStep
write_step c step = record step {
  status = c.status;
  progress = c.progress;
  message = c.message;
  start_time = or_else c.start step.start_time;
  end_time = or_else c.end step.end_time;
}

unfoldable pub update_first : Text → StepChange → List ReleaseStep → List ReleaseStep
unfolding write_step
update_first key c [] = []
update_first key c (step ∷ steps) =
    if step_matches key step then write_step c step ∷ steps else step ∷ update_first key c steps

-- `applyReleaseStepUpdate`.
unfoldable pub apply_release_step_update : List ReleaseStep → Text → StepChange → List ReleaseStep
unfolding update_first
apply_release_step_update steps step_name c =
    update_first (normalize_release_step_key step_name) c steps

-- The loop of `markReleaseStepCompleted`, which compares the name as it stands.
complete_first : Text → Text → ℕ → List ReleaseStep → List ReleaseStep
complete_first key message now [] =
    record {
      code = key;
      name = key;
      progress = pos 100;
      status = succeeded;
      message = message;
      start_time = some now;
      end_time = some now;
    }
    ∷ []
complete_first key message now (step ∷ steps) =
    if text_eq step.code key || text_eq step.name key
    then record step {
      status = succeeded;
      progress = pos 100;
      message = message;
      start_time = some now;
      end_time = some now;
    }
      ∷ steps
    else step ∷ complete_first key message now steps

-- `markReleaseStepCompleted`, on the steps of the release.
unfoldable pub mark_release_step_completed : Text → Text → ℕ → List ReleaseStep → List ReleaseStep
unfolding complete_first
mark_release_step_completed step_code message now steps =
    complete_first (normalize_release_step_key step_code) message now steps
