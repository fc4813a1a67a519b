-- ===== src/Tests/Artifacts.antt =====
-- The artifact that a release is deployed from, at concrete releases.
use devflow_service.Base.{[], false, refl, true, ◌≡◌}
use devflow_service.Release.Artifact.{
  artifact_ref_of, derive_oci_application_artifact, is_rollback_release,
}
use devflow_service.Release.Artifact.RoundTrip.{
  HoldsReference, derive_oci_application_artifact-reads,
}
use devflow_service.Release.Types.{Release, ReleaseStatus}
use devflow_service.Service.Operations.{is_candidate, rollback_release}
use devflow_service.Service.Operations.Deployed.{rollback_release-deploys_target}
use devflow_service.Tests.Data.{release_of}
use devflow_service.Text.{codes, equal_fold, is_empty, trim_space}

abbrev referring : Release
referring = record (release_of 3 ReleaseStatus.succeeded []) {
  artifact_repository = [];
  artifact_ref = codes "oci://r/app@sha256:ab";
}

-- A registry with a port and no tag is cut at the port.
port_test :
    derive_oci_application_artifact (record referring { artifact_ref = codes "oci://r:5000/app" })
    ≡ (codes "oci://r", codes "5000/app")
unfolding derive_oci_application_artifact
port_test = refl

referring-HoldsReference :
    HoldsReference referring (codes "r/app") (codes "latest") (codes "sha256:ab")
unfolding trim_space equal_fold artifact_ref_of is_empty
referring-HoldsReference = record {
  no_rollback = refl;
  no_repository = refl;
  no_tag = refl;
  no_digest = refl;
  reference = refl;
  named = refl;
  no_at_in_repository = (refl, (refl, (refl, (refl, (refl, tt)))));
  no_at_in_tag = (refl, (refl, (refl, (refl, (refl, (refl, tt))))));
  no_colon_in_tag = (refl, (refl, (refl, (refl, (refl, (refl, tt))))));
  no_at_in_digest = (refl, (refl, (refl, (refl, (refl, (refl, (refl, (refl, (refl, tt)))))))));
}

derive_oci_application_artifact-reads_example :
    derive_oci_application_artifact referring ≡ (codes "oci://r/app", codes "sha256:ab")
unfolding is_empty
derive_oci_application_artifact-reads_example =
    derive_oci_application_artifact-reads referring (codes "r/app") (codes "latest")
      (codes "sha256:ab") referring-HoldsReference

abbrev failed_release : Release
failed_release = release_of 4 ReleaseStatus.failed []

candidate_test : is_candidate failed_release.id referring ≡ true
unfolding is_candidate trim_space is_empty
candidate_test = refl

no_rollback_test : is_rollback_release referring ≡ false
unfolding trim_space equal_fold
no_rollback_test = refl

rollback_release-deploys_target_example :
    derive_oci_application_artifact (rollback_release failed_release referring 9 20)
    ≡ derive_oci_application_artifact referring
rollback_release-deploys_target_example =
    rollback_release-deploys_target failed_release referring 9 20 candidate_test no_rollback_test
