-- ===== src/Release/Steps/Canonical.antt =====
-- inferReleaseType and normalizeReleaseSteps of internal/release/service/release.go.
pub mod Laws
pub mod Idempotent
use devflow_service.Base.{Bool, List, Option, [], false, if◌then◌else◌, none, some, ◌||◌, ◌∷◌}
use devflow_service.Release.Steps.{default_release_steps}
use devflow_service.Release.Steps.Keys.{normalize_release_step_key}
use devflow_service.Release.Types.{
  ReleaseStep, ReleaseType, blue_green, canary, normal, release_strategy_to_type,
}
use devflow_service.Runtime.Store.Calls.{step}
use devflow_service.Text.{Text, codes, is_empty, text_eq}

-- The map `byCode` is an association list whose newest entry stands first.
abbrev is_one_of : Text → List Text → Bool
is_one_of key [] = false
is_one_of key (k ∷ ks) = text_eq key k || is_one_of key ks

abbrev blue_green_keys : List Text
blue_green_keys =
    codes "deploy_preview"
    ∷ codes "observe_preview"
    ∷ codes "switch_traffic"
    ∷ codes "verify_active"
    ∷ []

abbrev canary_keys : List Text
canary_keys =
    codes "deploy_canary"
    ∷ codes "canary_10"
    ∷ codes "canary_30"
    ∷ codes "canary_60"
    ∷ codes "canary_100"
    ∷ []

-- The loop of `inferReleaseType`.
pub infer_from_steps : List ReleaseStep → ReleaseType
infer_from_steps [] = normal
infer_from_steps (step ∷ steps) =
    let key = normalize_release_step_key step.code in
    if is_one_of key blue_green_keys
    then blue_green
    else if is_one_of key canary_keys
    then canary
    else infer_from_steps steps

abbrev pub or_inferred : ReleaseType → List ReleaseStep → ReleaseType
or_inferred normal steps = infer_from_steps steps
or_inferred t steps = t

-- `inferReleaseType`.
unfoldable pub infer_release_type : Text → List ReleaseStep → ReleaseType
unfolding infer_from_steps
infer_release_type strategy steps = or_inferred (release_strategy_to_type strategy) steps

-- The key under which a stored step is filed: its code, or else its name.
pub step_key : ReleaseStep → Text
step_key step =
    let key = normalize_release_step_key step.code in
    if is_empty key then normalize_release_step_key step.name else key

pub lookup_key : Text → List (Text × ReleaseStep) → Option ReleaseStep
lookup_key key [] = none
lookup_key key ((k, step) ∷ by_code) = if text_eq k key then some step else lookup_key key by_code

-- One round of the loop that fills `byCode`. The code that it gives to a step without one is
-- overwritten below.
abbrev pub file_step : ReleaseStep → List (Text × ReleaseStep) → List (Text × ReleaseStep)
file_step step by_code =
    if is_empty (step_key step) then by_code else (step_key step, step) ∷ by_code

pub index_steps : List (Text × ReleaseStep) → List ReleaseStep → List (Text × ReleaseStep)
unfolding step_key
index_steps by_code [] = by_code
index_steps by_code (step ∷ steps) = index_steps (file_step step by_code) steps

abbrev pub align_with : ReleaseStep → Option ReleaseStep → ReleaseStep
align_with expected (some actual) = record actual { code = expected.code; name = expected.name }
align_with expected none = expected

-- The loop over the canonical steps.
pub align_steps : List (Text × ReleaseStep) → List ReleaseStep → List ReleaseStep
unfolding lookup_key
align_steps by_code [] = []
align_steps by_code (expected ∷ canonical) =
    align_with expected (lookup_key expected.code by_code) ∷ align_steps by_code canonical

-- `normalizeReleaseSteps`, on the strategy, action and steps of the release.
unfoldable pub normalize_release_steps : Text → Text → List ReleaseStep → List ReleaseStep
unfolding align_steps index_steps infer_release_type
normalize_release_steps strategy release_action steps =
    align_steps (index_steps [] steps)
      (default_release_steps (infer_release_type strategy steps) release_action)
