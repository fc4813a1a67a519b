-- ===== src/Service/Operations/Deployed.antt =====
-- The artifact that a rollback is deployed from.
use devflow_service.Base.{
  Bool, Bool-cases, [], false, inl, inr, not, refl, subst, sym, true, ℕ, ◌&&◌, ◌==◌, ◌||◌, ◌∷◌, ◌≡◌,
}
use devflow_service.Release.Artifact.{
  ArtifactMetadata, derive_oci_application_artifact, is_known, is_rollback_release, own_metadata,
  release_execution_artifact_metadata, release_execution_artifact_tag, target_metadata,
}
use devflow_service.Release.Types.{Release}
use devflow_service.Service.Operations.{is_candidate, is_succeeded_release, rollback_release}
use devflow_service.Text.{Text, equal_fold, is_empty, trim_space}
use devflow_service.Text.Trim.{trim_space_idem}

known_of :
    (repository digest ref ended fresh_row : Bool)
    → (fresh_row && ended && not (ref && digest && repository)) ≡ true
    → (not repository || not digest || not ref) ≡ true
known_of true true true true true h = cc
known_of true true true true false h = cc
known_of true true true false true h = cc
known_of true true true false false h = cc
known_of false true true ended fresh_row h = refl
known_of false true false ended fresh_row h = refl
known_of false false ref ended fresh_row h = refl
known_of true false ref ended fresh_row h = refl
known_of true true false ended fresh_row h = refl

rollback_is_rollback :
    (release target : Release) (fresh now : ℕ)
    → is_rollback_release (rollback_release release target fresh now) ≡ true
unfolding rollback_release equal_fold trim_space
rollback_is_rollback release target fresh now = refl

rollback_metadata :
    (release target : Release) (fresh now : ℕ)
    → target_metadata (rollback_release release target fresh now) ≡ own_metadata target
unfolding rollback_release
rollback_metadata release target fresh now =
    rw
      (
        trim_space_idem target.artifact_repository,
        trim_space_idem target.artifact_digest,
        trim_space_idem target.artifact_ref,
      )
      refl

candidate_is_known :
    (id : ℕ) (target : Release)
    → is_candidate id target ≡ true
    → is_known (own_metadata target) ≡ true
unfolding is_candidate
candidate_is_known id target h =
    known_of (is_empty (trim_space target.artifact_repository))
      (is_empty (trim_space target.artifact_digest)) (is_empty (trim_space target.artifact_ref))
      (is_succeeded_release target.status) (not (target.id == id)) h

rollback_is_known :
    (release target : Release) (fresh now : ℕ)
    → is_candidate release.id target ≡ true
    → is_known (target_metadata (rollback_release release target fresh now)) ≡ true
rollback_is_known release target fresh now h =
    subst (λ (m : ArtifactMetadata). is_known m ≡ true)
      (sym (rollback_metadata release target fresh now)) (candidate_is_known release.id target h)

rollback-metadata :
    (release target : Release) (fresh now : ℕ)
    → is_candidate release.id target ≡ true
    → is_rollback_release target ≡ false
    → release_execution_artifact_metadata (rollback_release release target fresh now)
      ≡ release_execution_artifact_metadata target
unfolding release_execution_artifact_metadata
rollback-metadata release target fresh now h k =
    rw
      (
        rollback_is_rollback release target fresh now,
        rollback_is_known release target fresh now h,
        k,
      )
      (rollback_metadata release target fresh now)

rollback_target_tag :
    (release target : Release) (fresh now : ℕ)
    → trim_space (rollback_release release target fresh now).rollback_target_artifact_tag
      ≡ trim_space target.artifact_tag
unfolding rollback_release
rollback_target_tag release target fresh now = trim_space_idem target.artifact_tag

rollback_own_tag :
    (release target : Release) (fresh now : ℕ)
    → trim_space (rollback_release release target fresh now).artifact_tag ≡ []
unfolding rollback_release trim_space
rollback_own_tag release target fresh now = refl

empty_text : (s : Text) → is_empty s ≡ true → s ≡ []
unfolding is_empty
empty_text [] h = refl
empty_text (c ∷ s) h = cc

rollback-tag :
    (release target : Release) (fresh now : ℕ)
    → is_rollback_release target ≡ false
    → release_execution_artifact_tag (rollback_release release target fresh now)
      ≡ release_execution_artifact_tag target
unfolding release_execution_artifact_tag
rollback-tag release target fresh now k =
    elim (Bool-cases (is_empty (trim_space target.artifact_tag))) [
      | inl blank ↦
          rw
            (
              rollback_is_rollback release target fresh now,
              rollback_target_tag release target fresh now,
              blank,
              k,
              rollback_own_tag release target fresh now,
            )
            (sym (empty_text (trim_space target.artifact_tag) blank))
      | inr tagged ↦
          rw
            (
              rollback_is_rollback release target fresh now,
              rollback_target_tag release target fresh now,
              tagged,
              k,
            )
            refl
    ]

-- The release that a rollback creates is deployed from the artifact that its target was deployed
-- from, where the target is a candidate and is not a rollback itself.
pub rollback_release-deploys_target :
    (release target : Release) (fresh now : ℕ)
    → is_candidate release.id target ≡ true
    → is_rollback_release target ≡ false
    → derive_oci_application_artifact (rollback_release release target fresh now)
      ≡ derive_oci_application_artifact target
unfolding derive_oci_application_artifact
rollback_release-deploys_target release target fresh now h k =
    rw (rollback-metadata release target fresh now h k, rollback-tag release target fresh now k)
      refl
