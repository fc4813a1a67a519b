-- ===== src/Runtime/Observed/Rollouts.antt =====
-- The Argo Rollout that internal/runtime/reconcile/release_observed_state.go reads, and the one
-- that it makes of an observed workload.
use devflow_service.Base.{
  Bool, List, Option, [], any, if◌then◌else◌, ltb, none, pos, some, ℕ, ℤ, ◌*◌, ◌++◌, ◌/◌, ◌||◌, ◌∷◌,
}
use devflow_service.Runtime.Observed.{as_int32, raised, value_at}
use devflow_service.Runtime.Types.{RuntimeObservedWorkload, RuntimeObservedWorkloadCondition}
use devflow_service.Text.{Text, codes, contains, is_empty, text_eq, to_lower, trim_space}
use devflow_service.Text.Format.{digits}

-- What the code reads of the object: whether `spec.strategy.blueGreen` is a map, and the fields of
-- `spec` and `status`, where `none` is a missing one. A count is an `int32` that is not negative.
pub record Rollout : Type 0 where
  pub blue_green : Bool
  pub phase : Text
  pub message : Text
  pub current_step_index : Option ℤ
  pub replicas : Option ℕ
  pub ready_replicas : Option ℕ
  pub available_replicas : Option ℕ

-- `canaryStepIndexFromText`.
unfoldable pub canary_step_index_from_text : Text → Option ℤ
unfolding to_lower trim_space contains
canary_step_index_from_text value =
    let normalized = to_lower (trim_space value) in
    if contains normalized (codes "100")
    then some (pos 6)
    else if contains normalized (codes "60")
    then some (pos 4)
    else if contains normalized (codes "30")
    then some (pos 2)
    else if contains normalized (codes "10")
    then some (pos 0)
    else none

-- The text of a condition: its reason, or its message where that is empty.
abbrev reason_or_message : RuntimeObservedWorkloadCondition → Text
reason_or_message condition =
    if is_empty (trim_space condition.reason)
    then trim_space condition.message
    else trim_space condition.reason

abbrev first_index : Option ℤ → Option ℤ → Option ℤ
first_index (some index) rest = some index
first_index none rest = rest

-- `rolloutCurrentStepIndexFromObservedWorkload`.
unfoldable pub current_step_index_from : List RuntimeObservedWorkloadCondition → Option ℤ
unfolding canary_step_index_from_text is_empty trim_space
current_step_index_from [] = none
current_step_index_from (condition ∷ conditions) =
    let value = reason_or_message condition in
    let rest = current_step_index_from conditions in
    if is_empty value then rest else first_index (canary_step_index_from_text value) rest

-- `rolloutMessageFromObservedWorkload`.
unfoldable pub rollout_message_from : List RuntimeObservedWorkloadCondition → Text
unfolding is_empty trim_space
rollout_message_from [] = []
rollout_message_from (condition ∷ conditions) =
    let rest = rollout_message_from conditions in
    if is_empty (trim_space condition.message) then rest else trim_space condition.message

-- `rolloutPhaseFromObservedWorkload`.
unfoldable pub rollout_phase_from : Text → Text
unfolding to_lower trim_space text_eq
rollout_phase_from summary =
    let status = to_lower (trim_space summary) in
    if any (text_eq status) (codes "healthy" ∷ codes "completed" ∷ [])
    then codes "Healthy"
    else if any (text_eq status) (codes "degraded" ∷ codes "error" ∷ codes "failed" ∷ [])
    then codes "Degraded"
    else if text_eq status (codes "paused")
    then codes "Paused"
    else codes "Progressing"

abbrev mentions : Text → Text → Bool
mentions sub value = contains (to_lower (trim_space value)) sub

abbrev looks_blue_green : RuntimeObservedWorkloadCondition → Bool
looks_blue_green condition =
    mentions (codes "bluegreen") condition.type
    || mentions (codes "bluegreen") condition.reason
    || mentions (codes "blue-green") condition.message

-- `observedWorkloadLooksBlueGreen`.
unfoldable pub observed_workload_looks_blue_green : RuntimeObservedWorkload → Bool
unfolding contains to_lower trim_space value_at
observed_workload_looks_blue_green w =
    any looks_blue_green w.conditions
    || any (mentions (codes "blue")) (
        value_at (codes "devflow.io/rollout-strategy") w.annotations
        ∷ value_at (codes "devflow.io/release-strategy") w.annotations
        ∷ value_at (codes "devflow.io/rollout-strategy") w.labels
        ∷ value_at (codes "devflow.io/release-strategy") w.labels
        ∷ [])

abbrev rollout_of : RuntimeObservedWorkload → Rollout
rollout_of w = record {
  blue_green = observed_workload_looks_blue_green w;
  phase = rollout_phase_from w.summary_status;
  message = rollout_message_from w.conditions;
  current_step_index = current_step_index_from w.conditions;
  replicas = some w.desired_replicas;
  ready_replicas = some w.ready_replicas;
  available_replicas = some w.available_replicas;
}

-- `rolloutFromObservedWorkload`.
unfoldable pub rollout_from_observed_workload : Option RuntimeObservedWorkload → Option Rollout
unfolding observed_workload_looks_blue_green rollout_phase_from rollout_message_from
    current_step_index_from
rollout_from_observed_workload none = none
rollout_from_observed_workload (some w) = some (rollout_of w)

abbrev or_count : ℕ → Option ℕ → ℕ
or_count fallback none = fallback
or_count fallback (some n) = n

-- `rolloutReplicaSummary`.
pub record ReplicaSummary : Type 0 where
  pub ready : ℕ
  pub available : ℕ
  pub desired : ℕ

abbrev pub rollout_replica_summary : Rollout → ReplicaSummary
rollout_replica_summary r = record {
  ready = or_count 0 r.ready_replicas;
  available = or_count (or_count 0 r.ready_replicas) r.available_replicas;
  desired = or_count 1 r.replicas;
}

-- `maxInt32` of two counts.
abbrev max_int32 : ℕ → ℕ → ℕ
max_int32 a b = if ltb a b then b else a

abbrev share_of : Option ℕ → ℕ → Option ℕ
share_of none desired = none
share_of (some n) desired = some (n / desired)

-- `rolloutProgressCandidate`. The product is an `int32`: one that wraps around to a negative number
-- gives no candidate above the floor.
unfoldable pub rollout_progress_candidate : ReplicaSummary → ℕ → ℕ
rollout_progress_candidate s floor =
    if ltb 0 s.desired
    then raised floor (share_of (as_int32 (max_int32 s.ready s.available * 100)) s.desired)
    else raised floor none

-- `(ready=%d/%d, available=%d/%d)`.
unfoldable pub summary_text : ReplicaSummary → Text
unfolding digits
summary_text s =
    codes "(ready="
    ++ digits s.ready
    ++ codes "/"
    ++ digits s.desired
    ++ codes ", available="
    ++ digits s.available
    ++ codes "/"
    ++ digits s.desired
    ++ codes ")"

-- `%d|%d|%d` of the desired, ready and available counts. The last part of a state key is empty:
-- `nestedString` finds no string at `metadata.generation`, which is a number.
unfoldable pub summary_key : ReplicaSummary → Text
unfolding digits
summary_key s =
    digits s.desired ++ codes "|" ++ digits s.ready ++ codes "|" ++ digits s.available ++ codes "|"
