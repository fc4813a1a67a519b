-- ===== src/Tests/Runtimes.antt =====
-- The store of the runtime service, the reports of workloads, and the reconciler.
use devflow_service.Base.{
  List, Option, [], ap, arith, erase, false, find, map, none, pos, refl, some, sort_by, true, ℕ,
  ℕ-Key, ◌+◌, ◌-◌, ◌∷◌, ◌≡◌,
}
use devflow_service.Control.Timeout.{minutes}
use devflow_service.Release.Steps.Canonical.{normalize_release_steps}
use devflow_service.Release.Types.{StepStatus, normalize_release_strategy, release_strategy_to_type}
use devflow_service.Runtime.Observed.{NormalizedReleaseObservedState, ReleaseStepWrite, value_at}
use devflow_service.Runtime.Observed.Accepted.{
  AreFound, all_writes, kind_of, normalize_rollout-AreFound,
}
use devflow_service.Runtime.Observed.BlueGreen.{is_failed_phase, is_healthy_phase}
use devflow_service.Runtime.Observed.Canary.{
  active_writes, canary_next_step, canary_progress_for_index, canary_step_for_index,
  canary_succeeded_writes_before, derive_canary_state, succeeded_before,
}
use devflow_service.Runtime.Observed.Deployments.{
  Deployment, condition_summary, conditions_from, deployment_failed, deployment_healthy,
  generation_observed,
}
use devflow_service.Runtime.Observed.Normalize.{
  deployment_with, normalize_deployment, normalize_for_reconcile, normalize_rollout,
}
use devflow_service.Runtime.Observed.Outcome.{
  Says, deployment_outcome, end_of, phase_of, progress_of,
}
use devflow_service.Runtime.Observed.Progress.{AreWithin, normalize_rollout-within}
use devflow_service.Runtime.Observed.Rollouts.{Rollout}
use devflow_service.Runtime.Reconcile.{
  Reconciler, ReleaseRecord, get_release, in_place, is_stale, is_tracked, match_workload,
  release_among, release_from_workload, tracked_release,
}
use devflow_service.Runtime.Reconcile.Loss.{retrying, terminal_report_lost}
use devflow_service.Runtime.Reconcile.Run.{
  input_of, nothing_to_do, reconcile, report_workload, reported_state,
}
use devflow_service.Runtime.Reconcile.Stalls.{apply_timeouts_exact, late_report}
use devflow_service.Runtime.Reconcile.Timeouts.{apply_timeouts, may_time_out}
use devflow_service.Runtime.Reconcile.Tracking.{IsKeyed, IsOnlyAt, IsUuidParse}
use devflow_service.Runtime.Store.{
  MemoryStore, delete_runtime_spec, ensure_runtime_spec, find_runtime_spec, fresh_spec,
  indexed_spec, list_runtime_specs, new_memory_store, runtime_app_env_key,
}
use devflow_service.Runtime.Store.Calls.{
  SpecCall, delete_spec, ensure_spec, find_spec, replay, run_store, step,
}
use devflow_service.Runtime.Store.Index.{IsIndexed, IsUuidText, new-IsIndexed}
use devflow_service.Runtime.Store.Refines.{run_store_refines}
use devflow_service.Runtime.Store.RoundTrip.{IsCleared, SameUnder, delete_clears, find-ensure}
use devflow_service.Runtime.Store.Table.{table_of}
use devflow_service.Runtime.Types.{RuntimeObservedWorkload, RuntimeSpec}
use devflow_service.Service.Step.{is_settled}
use devflow_service.Service.World.{err, no_rows, ok, store_failed}
use devflow_service.Text.{Text, codes, equal_fold, text_eq, to_lower, trim_space}
use devflow_service.Text.Laws.{Text-Key}

-- An id in text: a character for the number, and 35 more.
abbrev uuid_text : ℕ → Text
uuid_text n = (n + 100) ∷ codes "-0000-0000-0000-0000-0000-0000-0000"

first_code : Text → ℕ
first_code [] = 0
first_code (c ∷ s) = c

uuid_text-injective : (a b : ℕ) → uuid_text a ≡ uuid_text b → a ≡ b
unfolding first_code
uuid_text-injective a b e = omega (arith, ap first_code e)

uuid_text-IsUuidText : IsUuidText uuid_text
uuid_text-IsUuidText = record { width = λ a. refl; injective = uuid_text-injective }

abbrev parse_uuid : Text → Option ℕ
parse_uuid [] = none
parse_uuid (c ∷ s) = some (c - 100)

-- The store is empty; the spec is made, found with a space, removed, and missed.
abbrev spec_calls : List SpecCall
spec_calls =
    ensure_spec 1 (codes "staging") 7 50
    ∷ find_spec 1 (codes " staging")
    ∷ delete_spec 1 (codes "staging ")
    ∷ find_spec 1 (codes "staging")
    ∷ []

run_store_refines_example :
    ((run_store uuid_text spec_calls new_memory_store).0
      ≡ (replay spec_calls (table_of uuid_text new_memory_store)).0)
    × (table_of uuid_text (run_store uuid_text spec_calls new_memory_store).1
        ≡ (replay spec_calls (table_of uuid_text new_memory_store)).1)
    × IsIndexed uuid_text (run_store uuid_text spec_calls new_memory_store).1
unfolding find
run_store_refines_example =
    run_store_refines uuid_text spec_calls new_memory_store uuid_text-IsUuidText
      (refl, (tt, (tt, (tt, tt)))) (new-IsIndexed uuid_text)

abbrev staging : RuntimeSpec
staging = fresh_spec 1 (codes "staging") 7 50

answers_test :
    (run_store uuid_text spec_calls new_memory_store).0
    ≡ ok (some staging) ∷ ok (some staging) ∷ ok none ∷ err no_rows ∷ []
unfolding run_store step ensure_runtime_spec find_runtime_spec delete_runtime_spec indexed_spec
    runtime_app_env_key find erase trim_space text_eq
answers_test = refl

find-ensure_example :
    find_runtime_spec uuid_text 1
      (codes " staging ")
      (ensure_runtime_spec uuid_text 1 (codes "staging") 7 50 new_memory_store).1
    ≡ (ensure_runtime_spec uuid_text 1 (codes "staging") 7 50 new_memory_store).0
unfolding trim_space
find-ensure_example =
    find-ensure uuid_text 1 (codes "staging") (codes " staging ") 7 50 new_memory_store refl

-- A Deployment of two replicas, at its generation, for release 3.
abbrev web : RuntimeObservedWorkload
web = record {
  id = 4;
  runtime_spec_id = 7;
  application_id = 1;
  environment = codes "staging";
  namespace = codes "shop";
  workload_kind = codes "Deployment";
  workload_name = codes "web";
  desired_replicas = 2;
  ready_replicas = 2;
  updated_replicas = 2;
  available_replicas = 2;
  unavailable_replicas = 0;
  observed_generation = 5;
  summary_status = codes "Healthy";
  images = [];
  conditions = [];
  labels =
      (codes "devflow.io/release-id", uuid_text 3)
      ∷ (codes "devflow.io/release-status", codes "Running")
      ∷ [];
  annotations = [];
  observed_at = 60;
  restart_at = none;
  deleted_at = none;
}

abbrev shop_store : MemoryStore
shop_store = record new_memory_store {
  runtime_specs = (7, staging) ∷ [];
  runtime_spec_by_app_env = (runtime_app_env_key uuid_text 1 (codes "staging"), 7) ∷ [];
  observed_workloads = (7, web) ∷ [];
}

delete_clears_example :
    IsCleared 7 (delete_runtime_spec uuid_text 1 (codes "staging") shop_store).1
    × SameUnder 8 (delete_runtime_spec uuid_text 1 (codes "staging") shop_store).1 shop_store
unfolding find text_eq runtime_app_env_key trim_space
delete_clears_example =
    delete_clears uuid_text 1 (codes "staging") 7 8 shop_store refl (λ e. absurd (omega arith))

-- Four replicas are wanted, and one is up.
abbrev slow : Deployment
slow = record {
  generation = 5;
  replicas = some 4;
  observed_generation = 5;
  updated_replicas = 4;
  ready_replicas = 1;
  available_replicas = 1;
  unavailable_replicas = 3;
  conditions = [];
}

deployment_outcome_example :
    Says
      (normalize_deployment (codes "shop") (codes "web") (some slow) 60)
      (phase_of slow)
      (progress_of (phase_of slow))
      (end_of (phase_of slow))
deployment_outcome_example = deployment_outcome (codes "shop") (codes "web") slow 60

-- A StatefulSet with all its replicas.
abbrev stateful : RuntimeObservedWorkload
stateful = record web { workload_kind = codes "StatefulSet" }

-- A canary in its second pause.
abbrev paused_canary : Rollout
paused_canary = record {
  blue_green = false;
  phase = codes "Paused";
  message = codes "CanaryPauseStep";
  current_step_index = some (pos 3);
  replicas = some 4;
  ready_replicas = some 4;
  available_replicas = none;
}

paused_kind : release_strategy_to_type (codes "canary") ≡ kind_of (some paused_canary)
unfolding release_strategy_to_type text_eq normalize_release_strategy to_lower trim_space
paused_kind = refl

normalize_rollout-AreFound_example :
    AreFound
      (normalize_release_steps (codes "canary") (codes "Upgrade") [])
      (all_writes (normalize_rollout (codes "shop") (codes "web") [] (some paused_canary)))
normalize_rollout-AreFound_example =
    normalize_rollout-AreFound (codes "shop") (codes "web") [] (codes "canary") (codes "Upgrade") []
      (some paused_canary) paused_kind

normalize_rollout-within_example :
    AreWithin (normalize_rollout (codes "shop") (codes "web") [] (some paused_canary)).step_writes
normalize_rollout-within_example =
    normalize_rollout-within (codes "shop") (codes "web") [] (some paused_canary)

summary : ReleaseStepWrite → Text × StepStatus × ℕ
summary w = (w.step_code, w.status, w.progress)

paused_test :
    map
      (λ (w : ReleaseStepWrite). summary w)
      (normalize_rollout (codes "shop") (codes "web") [] (some paused_canary)).step_writes
    ≡ (codes "deploy_canary", StepStatus.succeeded, 100)
      ∷ (codes "canary_10", StepStatus.succeeded, 100)
      ∷ (codes "canary_30", StepStatus.succeeded, 100)
      ∷ (codes "canary_60", StepStatus.running, 55)
      ∷ []
unfolding summary normalize_rollout derive_canary_state is_healthy_phase is_failed_phase text_eq
    to_lower trim_space canary_succeeded_writes_before succeeded_before active_writes
    canary_next_step canary_step_for_index canary_progress_for_index
paused_test = refl

-- The release service cannot be reached.
abbrev cut_off : Reconciler
cut_off = record {
  control_plane_id = [];
  uuid_string = uuid_text;
  uuid_parse = parse_uuid;
  label_updater = none;
  steps_writer = λ input. err (store_failed (codes "connection refused"));
}

cut_off-IsUuidParse : IsUuidParse cut_off
cut_off-IsUuidParse = record { round_trip = λ a. ap some (omega arith); no_id = refl }

shop-IsKeyed : IsKeyed shop_store
unfolding find
shop-IsKeyed j w e = ground arith

abbrev release_3 : ReleaseRecord
release_3 = record {
  release_id = 3;
  application_id = 1;
  environment_id = codes "staging";
  control_plane_id = [];
  status = codes "Running";
}

shop-IsOnlyAt : IsOnlyAt cut_off 3 7 shop_store
unfolding find
shop-IsOnlyAt j w e h = ground arith

found_web :
    (reconcile cut_off (uuid_text 3) 70 shop_store).written
    ≡ some (input_of release_3 web (reported_state cut_off release_3 web 70))
unfolding reconcile get_release release_among release_from_workload tracked_release value_at find
    list_runtime_specs sort_by match_workload in_place is_tracked is_stale report_workload text_eq
    trim_space
found_web = refl

settled_of :
    (state : NormalizedReleaseObservedState)
    → state.phase ≡ StepStatus.succeeded
    → is_settled (apply_timeouts release_3 web state 70).phase ≡ true
unfolding apply_timeouts may_time_out
settled_of state e = rw (apply_timeouts, may_time_out, e) refl

web_settled : is_settled (reported_state cut_off release_3 web 70).phase ≡ true
unfolding reported_state normalize_for_reconcile deployment_failed deployment_healthy
    generation_observed condition_summary conditions_from equal_fold to_lower text_eq trim_space
web_settled =
    settled_of (normalize_for_reconcile web 70)
      (deployment_outcome (codes "shop") (codes "web") (deployment_with 5 web) 70).0

terminal_report_lost_example :
    (let first = reconcile cut_off (uuid_text 3) 70 shop_store in
      let second =
        reconcile (retrying none (λ input. ok tt) cut_off) (uuid_text 3) 5070 first.store in
      (second.written ≡ none) × (second.result ≡ nothing_to_do) × (second.store ≡ first.store))
unfolding trim_space
terminal_report_lost_example =
    terminal_report_lost cut_off 3 7 (uuid_text 3) (uuid_text 3) 70 5070 shop_store
      (input_of release_3 web (reported_state cut_off release_3 web 70)) none (λ input. ok tt)
      cut_off-IsUuidParse refl refl refl shop-IsOnlyAt shop-IsKeyed found_web web_settled

abbrev under_way : NormalizedReleaseObservedState
under_way = record {
  phase = StepStatus.running;
  progress = 25;
  message = codes "deployment progressing";
  state_key = codes "key";
  step_writes = [];
  finalize_state = none;
}

apply_timeouts_exact_example :
    apply_timeouts release_3 web under_way (minutes 6)
    ≡ late_report (minutes 6 - web.observed_at) under_way
unfolding may_time_out equal_fold to_lower text_eq trim_space
apply_timeouts_exact_example = apply_timeouts_exact release_3 web under_way (minutes 6)

long_gone_test :
    (apply_timeouts release_3 web under_way (minutes 11)).message
    ≡ codes "release rollout timed out"
unfolding may_time_out equal_fold to_lower text_eq trim_space
long_gone_test =
    ap (λ (state : NormalizedReleaseObservedState). state.message)
      (apply_timeouts_exact release_3 web under_way (minutes 11))
