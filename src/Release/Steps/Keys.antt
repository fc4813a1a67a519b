-- ===== src/Release/Steps/Keys.antt =====
-- normalizeReleaseStepKey of internal/release/service/release.go.
pub mod Idempotent
use devflow_service.Base.{List, Option, [], if◌then◌else◌, none, refl, some, ◌∷◌, ◌≡◌}
use devflow_service.Text.{Text, codes, replace_all, text_eq, to_lower, trim_space}

-- The cases of its `switch`, in their order.
abbrev pub titles : List (Text × Text)
titles =
    (codes "", codes "")
    ∷ (codes "ensure namespace", codes "ensure_namespace")
    ∷ (codes "ensure pull secret", codes "ensure_pull_secret")
    ∷ (codes "ensure appproject destination", codes "ensure_appproject_destination")
    ∷ (codes "canary 10% traffic", codes "canary_10")
    ∷ (codes "canary 30% traffic", codes "canary_30")
    ∷ (codes "canary 60% traffic", codes "canary_60")
    ∷ (codes "canary 100% traffic", codes "canary_100")
    ∷ []

pub case_of : List (Text × Text) → Text → Option Text
case_of [] value = none
case_of ((title, key) ∷ cases) value = if text_eq value title then some key else case_of cases value

pub key_of_title : Text → Option Text
unfolding case_of
key_of_title = case_of titles

abbrev pub or_underscored : Option Text → Text → Text
or_underscored (some key) value = key
or_underscored none value = replace_all b' ' b'_' value

-- What the `switch` reads: lower case, trimmed, with `_` for `-`.
pub dashed_key : Text → Text
unfolding to_lower trim_space replace_all
dashed_key value = replace_all b'-' b'_' (trim_space (to_lower value))

-- `normalizeReleaseStepKey`.
unfoldable pub normalize_release_step_key : Text → Text
unfolding dashed_key key_of_title text_eq replace_all
normalize_release_step_key value =
    or_underscored (key_of_title (dashed_key value)) (dashed_key value)

pub normalize_release_step_key_lem :
    (value : Text)
    → normalize_release_step_key value
      ≡ or_underscored (key_of_title (dashed_key value)) (dashed_key value)
unfolding normalize_release_step_key
normalize_release_step_key_lem value = refl

canary_title : normalize_release_step_key (codes " Canary 10% Traffic ") ≡ codes "canary_10"
unfolding normalize_release_step_key
canary_title = refl

dashed_code : normalize_release_step_key (codes "observe-Rollout") ≡ codes "observe_rollout"
unfolding normalize_release_step_key
dashed_code = refl
