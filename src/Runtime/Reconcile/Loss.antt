-- ===== src/Runtime/Reconcile/Loss.antt =====
-- A terminal phase is reported once: what reports it also ends the tracking of its release.
use devflow_service.Base.{
  Bool-cases, Option, false, inl, inr, none, refl, some, subst, sym, true, ℕ, ◌==◌, ◌≡◌,
}
use devflow_service.Release.Types.{ReleaseStatus, StepStatus}
use devflow_service.Runtime.Reconcile.{
  Reconciler, ReleaseRecord, WriteReleaseStepsInput, clear_tracking, get_release, match_workload,
  terminal_release_status, tracked_release,
}
use devflow_service.Runtime.Reconcile.Matching.{Matches, match_workload-Matches}
use devflow_service.Runtime.Reconcile.Run.{
  Reconciled, after_match, after_release, cleaned, nothing_to_do, quiet, reconcile, report_workload,
  reported_state,
}
use devflow_service.Runtime.Reconcile.Tracking.{
  IsKeyed, IsOnlyAt, IsUntracked, IsUuidParse, clear_tracking-untracked, release_among-id,
  release_among-untracked, upsert-IsUntracked,
}
use devflow_service.Runtime.Store.{MemoryStore, list_runtime_specs}
use devflow_service.Runtime.Types.{RuntimeObservedWorkload}
use devflow_service.Service.Artifact.{update}
use devflow_service.Service.Step.{is_settled}
use devflow_service.Service.World.{Result, err, ok}
use devflow_service.Text.{Text, text_eq, trim_space}

some_input : {a b : WriteReleaseStepsInput} → some a ≡ some b → a ≡ b
some_input e = cc

module _ (r : Reconciler) where
  cleaned-IsUntracked :
      (id k : ℕ) (phase : StepStatus) (w : RuntimeObservedWorkload) (s : MemoryStore)
      → IsUuidParse r
      → is_settled phase ≡ true
      → w.runtime_spec_id ≡ k
      → IsOnlyAt r id k s
      → IsUntracked r id (cleaned (terminal_release_status phase) w s)
  unfolding clear_tracking
  cleaned-IsUntracked id k StepStatus.succeeded w s u h at only =
      upsert-IsUntracked r id k (clear_tracking (some ReleaseStatus.succeeded) w) s
        (clear_tracking-untracked r (some ReleaseStatus.succeeded) w u) at only
  cleaned-IsUntracked id k StepStatus.failed w s u h at only =
      upsert-IsUntracked r id k (clear_tracking (some ReleaseStatus.failed) w) s
        (clear_tracking-untracked r (some ReleaseStatus.failed) w u) at only
  cleaned-IsUntracked id k _ w s u h at only = absurd cc

  -- What a call that reports a terminal phase leaves.
  abbrev EndsTracking : ℕ → Reconciled → Type 0
  EndsTracking id after =
      (input : WriteReleaseStepsInput)
      → after.written ≡ some input
      → is_settled input.phase ≡ true
      → IsUntracked r id after.store

  after_match-EndsTracking :
      (id k : ℕ) (release : ReleaseRecord) (now : ℕ)
      (found : Result (Option RuntimeObservedWorkload) × MemoryStore)
      → IsUuidParse r
      → Matches r id k found
      → EndsTracking id (after_match r release now found)
  unfolding report_workload
  after_match-EndsTracking id k release now (err e, s) u h input p q = absurd cc
  after_match-EndsTracking id k release now (ok none, s) u h input p q = absurd cc
  after_match-EndsTracking id k release now (ok (some w), s) u (at, only, keyed) input p q =
      cleaned-IsUntracked id k (reported_state r release w now).phase w s u
        (subst (λ i. is_settled i.phase ≡ true) (sym (some_input p)) q) at only

  after_release-EndsTracking :
      (id k now : ℕ) (s : MemoryStore) (found : Option ReleaseRecord)
      → IsUuidParse r
      → id == 0 ≡ false
      → ((release : ReleaseRecord) → found ≡ some release → release.release_id ≡ id)
      → IsOnlyAt r id k s
      → IsKeyed s
      → EndsTracking id (after_release r now s found)
  after_release-EndsTracking id k now s none u nz same only keyed input p q = absurd cc
  after_release-EndsTracking id k now s (some release) u nz same only keyed input p q =
      elim (Bool-cases (text_eq (trim_space release.control_plane_id) r.control_plane_id)) [
        | inl e ↦
            let matches =
              match_workload-Matches r id k release now (list_runtime_specs s) none s u nz
                (same release refl) tt only keyed in
            rw e (
              after_match-EndsTracking id k release now
                (match_workload r release now (list_runtime_specs s) none s) u matches input
                (rw e at p) q)
        | inr e ↦ absurd (cc (rw e at p))
      ]

  get_release-id :
      (id : ℕ) (s : MemoryStore) (release : ReleaseRecord)
      → get_release r id s ≡ some release
      → release.release_id ≡ id
  unfolding get_release
  get_release-id id s release e = release_among-id r id (list_runtime_specs s) s release e

  reconcile-EndsTracking :
      (id k : ℕ) (text : Text) (now : ℕ) (s : MemoryStore)
      → IsUuidParse r
      → id == 0 ≡ false
      → r.uuid_parse (trim_space text) ≡ some id
      → IsOnlyAt r id k s
      → IsKeyed s
      → EndsTracking id (reconcile r text now s)
  unfolding reconcile
  reconcile-EndsTracking id k text now s u nz e only keyed input p q =
      rw (reconcile, e)
        (after_release-EndsTracking id k now s (get_release r id s) u nz (get_release-id id s) only
          keyed input (rw (reconcile, e) at p) q)

  -- Nothing is reported for a release that no workload is labelled with.
  reconcile-untracked :
      (id : ℕ) (text : Text) (now : ℕ) (s : MemoryStore)
      → r.uuid_parse (trim_space text) ≡ some id
      → IsUntracked r id s
      → reconcile r text now s ≡ quiet s
  unfolding reconcile get_release
  reconcile-untracked id text now s e h =
      rw (reconcile, e)
        (rw (get_release, release_among-untracked r id (list_runtime_specs s) s h) refl)

-- The reconciler with other calls of Kubernetes and of the release service.
abbrev pub retrying :
    Option (RuntimeObservedWorkload → ReleaseStatus → Result (Unit {0}))
    → (WriteReleaseStepsInput → Result (Unit {0}))
    → Reconciler
    → Reconciler
retrying update write r = record r { label_updater = update; steps_writer = write }

-- Let one workload at most be labelled with a release. A call that reports a terminal phase of it
-- ends the tracking whether or not the writer takes the report, so no later call reports anything
-- for the release and every one returns nil: a terminal report that failed is lost, although the
-- call that failed is run again.
pub terminal_report_lost :
    (r : Reconciler) (id k : ℕ) (text again : Text) (now later : ℕ) (s : MemoryStore)
    (input : WriteReleaseStepsInput)
    (update : Option (RuntimeObservedWorkload → ReleaseStatus → Result (Unit {0})))
    (write : WriteReleaseStepsInput → Result (Unit {0}))
    → IsUuidParse r
    → id == 0 ≡ false
    → r.uuid_parse (trim_space text) ≡ some id
    → r.uuid_parse (trim_space again) ≡ some id
    → IsOnlyAt r id k s
    → IsKeyed s
    → (reconcile r text now s).written ≡ some input
    → is_settled input.phase ≡ true
    → (let first = reconcile r text now s in
        let second = reconcile (retrying update write r) again later first.store in
        (second.written ≡ none) × (second.result ≡ nothing_to_do) × (second.store ≡ first.store))
unfolding tracked_release
terminal_report_lost r id k text again now later s input update write u nz e f only keyed p q =
    let first = reconcile r text now s in
    let ends = reconcile-EndsTracking r id k text now s u nz e only keyed input p q in
    let same = reconcile-untracked (retrying update write r) id again later first.store f ends in
    rw same (refl, refl, refl)
