-- ===== src/Release/Artifact.antt =====
-- The artifact that a release is deployed from: deriveOCIApplicationArtifact and the functions that
-- it calls, of internal/release/service/release.go, and the reference that
-- deriveReleaseArtifactMetadataFromBundle of release_prepare_runtime.go makes. The text of an id is
-- an argument.
pub mod RoundTrip
use devflow_service.Base.{
  Bool, Option, [], if◌then◌else◌, none, not, some, ℕ, ◌&&◌, ◌++◌, ◌==◌, ◌||◌, ◌∷◌,
}
use devflow_service.Release.Types.{Release, release_rollback}
use devflow_service.Text.{Text, codes, equal_fold, is_empty, trim_space}

pub record ArtifactMetadata : Type 0 where
  pub repository : Text
  pub digest : Text
  pub ref : Text

abbrev pub is_rollback_release : Release → Bool
is_rollback_release release = equal_fold (trim_space release.action) release_rollback

abbrev pub own_metadata : Release → ArtifactMetadata
own_metadata release = record {
  repository = trim_space release.artifact_repository;
  digest = trim_space release.artifact_digest;
  ref = trim_space release.artifact_ref;
}

abbrev pub target_metadata : Release → ArtifactMetadata
target_metadata release = record {
  repository = trim_space release.rollback_target_artifact_repository;
  digest = trim_space release.rollback_target_artifact_digest;
  ref = trim_space release.rollback_target_artifact_ref;
}

abbrev pub is_known : ArtifactMetadata → Bool
is_known m = not (is_empty m.repository) || not (is_empty m.digest) || not (is_empty m.ref)

-- `releaseExecutionArtifactMetadata`.
unfoldable pub release_execution_artifact_metadata : Release → ArtifactMetadata
unfolding trim_space is_empty equal_fold
release_execution_artifact_metadata release =
    if is_rollback_release release && is_known (target_metadata release)
    then target_metadata release
    else own_metadata release

-- `releaseExecutionArtifactTag`.
unfoldable pub release_execution_artifact_tag : Release → Text
unfolding trim_space is_empty equal_fold
release_execution_artifact_tag release =
    if is_rollback_release release
      && not (is_empty (trim_space release.rollback_target_artifact_tag))
    then trim_space release.rollback_target_artifact_tag
    else trim_space release.artifact_tag

-- What stands before and after the last rune `c`: `strings.LastIndex` and the two slices.
abbrev after_rune : ℕ → ℕ → Text → Option (Text × Text) → Option (Text × Text)
after_rune c x s (some (before, after)) = some (x ∷ before, after)
after_rune c x s none = if x == c then some ([], s) else none

unfoldable pub split_last : ℕ → Text → Option (Text × Text)
split_last c [] = none
split_last c (x ∷ s) = after_rune c x s (split_last c s)

-- The text after a prefix, where it has the prefix.
unfoldable pub after_prefix : Text → Text → Option Text
after_prefix [] s = some s
after_prefix (p ∷ prefix) [] = none
after_prefix (p ∷ prefix) (c ∷ s) =
    let rest = after_prefix prefix s in if p == c then rest else none

-- The split, if something stands before the rune: an index above 0.
abbrev pub split_inside : Option (Text × Text) → Option (Text × Text)
split_inside none = none
split_inside (some ([], after)) = none
split_inside (some (x ∷ before, after)) = some (x ∷ before, after)

abbrev pub or_revision : Text → Option (Text × Text) → Option (Text × Text)
or_revision revision none = none
or_revision revision (some (repository, found_revision)) =
    some (repository, if is_empty revision then found_revision else revision)

abbrev pub first_split : Option (Text × Text) → Option (Text × Text) → Text × Text → Text × Text
first_split (some p) q otherwise = p
first_split none (some q) otherwise = q
first_split none none otherwise = otherwise

-- The reference without its prefix, read as a repository and a revision.
unfoldable pub parse_reference : Text → Text → Text × Text
unfolding split_last is_empty
parse_reference revision trimmed =
    first_split (or_revision revision (split_inside (split_last b'@' trimmed)))
      (or_revision revision (split_inside (split_last b':' trimmed))) (trimmed, revision)

abbrev pub from_reference : Text → Option Text → Text × Text
from_reference revision none = ([], revision)
from_reference revision (some trimmed) = parse_reference revision trimmed

abbrev pub repository_url : Text × Text → Text × Text
repository_url (repository, revision) =
    ((if is_empty repository then [] else codes "oci://" ++ repository), revision)

-- `deriveOCIApplicationArtifact`: the URL of the repository and the revision.
unfoldable pub derive_oci_application_artifact : Release → Text × Text
unfolding release_execution_artifact_metadata release_execution_artifact_tag after_prefix
    parse_reference is_empty
derive_oci_application_artifact release =
    let m = release_execution_artifact_metadata release in
    let revision = if is_empty m.digest then release_execution_artifact_tag release else m.digest in
    repository_url (
      if is_empty m.repository
      then from_reference revision (after_prefix (codes "oci://") m.ref)
      else (m.repository, revision))

-- The tag and the reference of `deriveReleaseArtifactMetadata` and of
-- `deriveReleaseArtifactMetadataFromBundle`.
unfoldable pub artifact_tag_of : ℕ → Text → Text
artifact_tag_of id id_text = if id == 0 then codes "latest" else id_text

unfoldable pub artifact_ref_of : Text → Text → Text → Text
unfolding is_empty
artifact_ref_of repository tag digest =
    if is_empty repository
    then []
    else if is_empty digest
    then codes "oci://" ++ (repository ++ (codes ":" ++ tag))
    else codes "oci://" ++ (repository ++ (codes "@" ++ digest))
