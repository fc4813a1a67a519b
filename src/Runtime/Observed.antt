-- ===== src/Runtime/Observed.antt =====
-- The types and the small functions of internal/runtime/reconcile/release_observed_state.go, and
-- ReleaseStepWrite of release_reconciler.go there.
pub mod Deployments
pub mod Rollouts
pub mod BlueGreen
pub mod Canary
pub mod Normalize
pub mod Outcome
pub mod Known
pub mod Accepted
pub mod Progress
use devflow_service.Base.{
  List, Option, [], find, if◌then◌else◌, ltb, min, none, some, ℕ, ℕ-Key, ◌%◌, ◌++◌, ◌^◌, ◌∷◌,
}
use devflow_service.Release.Types.{StepStatus}
use devflow_service.Runtime.Types.{RuntimeObservedWorkload}
use devflow_service.Text.{Text, codes, is_empty, trim_space}
use devflow_service.Text.Laws.{Text-Key}

-- `ReleaseStepWrite`. A progress is an `int32` that is not negative.
pub record ReleaseStepWrite : Type 0 where
  pub step_code : Text
  pub status : StepStatus
  pub progress : ℕ
  pub message : Text

abbrev pub write_of : Text → StepStatus → ℕ → Text → ReleaseStepWrite
write_of code status progress message = record {
  step_code = code;
  status = status;
  progress = progress;
  message = message;
}

-- `NormalizedReleaseObservedState`.
pub record NormalizedReleaseObservedState : Type 0 where
  pub phase : StepStatus
  pub progress : ℕ
  pub message : Text
  pub state_key : Text
  pub step_writes : List ReleaseStepWrite
  pub finalize_state : Option ReleaseStepWrite

-- `firstNonEmptyString`.
unfoldable pub first_non_empty : List Text → Text
unfolding trim_space is_empty
first_non_empty [] = []
first_non_empty (value ∷ values) =
    let rest = first_non_empty values in
    if is_empty (trim_space value) then rest else trim_space value

-- `canaryStepMessage` and `blueGreenStepMessage`, which have one body.
unfoldable pub detailed_message : Text → Text → Text
unfolding trim_space is_empty
detailed_message base details =
    if is_empty (trim_space details)
    then base
    else base ++ codes " (" ++ trim_space details ++ codes ")"

-- A missing key of a map of strings is read as the empty string.
unfoldable pub value_at : Text → List (Text × Text) → Text
unfolding trim_space
value_at key m = elim (find key m) [ none ↦ [] | some value ↦ trim_space value ]

abbrev text_or : Text → Text → Text
text_or fallback [] = fallback
text_or fallback (c ∷ s) = c ∷ s

-- `workloadName`.
unfoldable pub workload_name_of : Option RuntimeObservedWorkload → Text
unfolding trim_space
workload_name_of none = codes "application"
workload_name_of (some w) = text_or (codes "application") (trim_space w.workload_name)

-- `workloadNamespace`.
unfoldable pub workload_namespace_of : Option RuntimeObservedWorkload → Text
unfolding trim_space
workload_namespace_of none = codes "unknown"
workload_namespace_of (some w) = text_or (codes "unknown") (trim_space w.namespace)

-- `workloadPrimaryName`.
unfoldable pub workload_primary_name : Option RuntimeObservedWorkload → Text
unfolding value_at workload_name_of
workload_primary_name none = codes "application"
workload_primary_name (some w) =
    text_or (workload_name_of (some w)) (value_at (codes "app.kubernetes.io/name") w.labels)

-- `workloadKind`.
unfoldable pub workload_kind_of : Option RuntimeObservedWorkload → Text
unfolding trim_space
workload_kind_of none = []
workload_kind_of (some w) = trim_space w.workload_kind

-- `int32(count * 100 / desired)`, or `none` where the conversion makes it negative.
abbrev pub as_int32 : ℕ → Option ℕ
as_int32 n = let low = n % 2 ^ 32 in if ltb low (2 ^ 31) then some low else none

-- `if candidate > progress { progress = candidate }`, then `if progress > 99 { progress = 99 }`.
abbrev pub raised : ℕ → Option ℕ → ℕ
raised progress none = min progress 99
raised progress (some candidate) = min (if ltb progress candidate then candidate else progress) 99
