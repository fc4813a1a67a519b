-- ===== src/Release/Artifact/RoundTrip.antt =====
-- A reference to an artifact, as it is made and as it is read.
use devflow_service.Base.{
  All, All-append, Bool-cases, [], false, if◌then◌else◌, inl, inr, none, refl, same_refl, some, ℕ,
  ℕ-Key, ◌++◌, ◌==◌, ◌∷◌, ◌≡◌,
}
use devflow_service.Release.Artifact.{
  after_prefix, artifact_ref_of, derive_oci_application_artifact, from_reference,
  is_rollback_release, parse_reference, release_execution_artifact_metadata,
  release_execution_artifact_tag, repository_url, split_last,
}
use devflow_service.Release.Types.{Release}
use devflow_service.Text.{Text, codes, is_empty, trim_space}
use devflow_service.Text.Laws.{Text-Key}

abbrev Lacks : ℕ → Text → Type 0
Lacks c s = All (λ x. (x == c) ≡ false) s

All-split : (c : ℕ) (s t : Text) → Lacks c s → Lacks c t → Lacks c (s ++ t)
All-split c s t h k = All-append (λ x. (x == c) ≡ false) s t h k

split_last-none : (c : ℕ) (s : Text) → Lacks c s → split_last c s ≡ none
unfolding split_last
split_last-none c [] h = refl
split_last-none c (x ∷ s) h = rw (split_last-none c s h.1, h.0) refl

split_last-append : (c : ℕ) (s t : Text) → Lacks c t → split_last c (s ++ (c ∷ t)) ≡ some (s, t)
unfolding split_last
split_last-append c [] t h = rw (split_last-none c t h, same_refl c) refl
split_last-append c (x ∷ s) t h = rw (split_last-append c s t h) refl

-- What the reader finds in the text after `oci://`.
read_digest :
    (repository digest : Text)
    → is_empty repository ≡ false
    → Lacks b'@' digest
    → parse_reference [] (repository ++ (b'@' ∷ digest)) ≡ (repository, digest)
unfolding parse_reference is_empty
read_digest [] digest h k = cc
read_digest (x ∷ repository) digest h k = rw (split_last-append b'@' (x ∷ repository) digest k) refl

read_tag :
    (repository tag : Text)
    → is_empty repository ≡ false
    → Lacks b'@' repository
    → Lacks b'@' tag
    → Lacks b':' tag
    → parse_reference [] (repository ++ (b':' ∷ tag)) ≡ (repository, tag)
unfolding parse_reference is_empty
read_tag [] tag h at_repository at_tag k = cc
read_tag (x ∷ repository) tag h at_repository at_tag k =
    rw
      (
        split_last-none b'@' (x ∷ repository ++ (b':' ∷ tag))
            (All-split b'@' (x ∷ repository) (b':' ∷ tag) at_repository (refl, at_tag)),
        split_last-append b':' (x ∷ repository) tag k,
      )
      refl

-- The release holds only a reference, which was made of a repository, a tag and a digest.
pub record HoldsReference (release : Release) (repository tag digest : Text) : Type 0 where
  pub no_rollback : is_rollback_release release ≡ false
  pub no_repository : trim_space release.artifact_repository ≡ []
  pub no_tag : trim_space release.artifact_tag ≡ []
  pub no_digest : trim_space release.artifact_digest ≡ []
  pub reference : trim_space release.artifact_ref ≡ artifact_ref_of repository tag digest
  pub named : is_empty repository ≡ false
  pub no_at_in_repository : Lacks b'@' repository
  pub no_at_in_tag : Lacks b'@' tag
  pub no_colon_in_tag : Lacks b':' tag
  pub no_at_in_digest : Lacks b'@' digest

reads_reference :
    (release : Release) (repository tag digest : Text)
    → HoldsReference release repository tag digest
    → derive_oci_application_artifact release
      ≡ repository_url (
          from_reference [] (after_prefix (codes "oci://") (artifact_ref_of repository tag digest)))
unfolding derive_oci_application_artifact release_execution_artifact_metadata
    release_execution_artifact_tag is_empty
reads_reference release repository tag digest h =
    rw (h.no_rollback, h.no_repository, h.no_tag, h.no_digest, h.reference) refl

reads_made :
    (repository tag digest : Text)
    → is_empty repository ≡ false
    → Lacks b'@' repository
    → Lacks b'@' tag
    → Lacks b':' tag
    → Lacks b'@' digest
    → repository_url
        (from_reference [] (after_prefix (codes "oci://") (artifact_ref_of repository tag digest)))
      ≡ (codes "oci://" ++ repository, if is_empty digest then tag else digest)
unfolding artifact_ref_of after_prefix
reads_made repository tag digest named at_repository at_tag colon at_digest =
    elim (Bool-cases (is_empty digest)) [
      | inl tagged ↦
          rw (named, tagged, read_tag repository tag named at_repository at_tag colon, named) refl
      | inr digested ↦
          rw (named, digested, read_digest repository digest named at_digest, named) refl
    ]

-- A release that holds only the reference of an artifact is deployed from the repository that the
-- reference was made of, at its digest, or at its tag if it was made without a digest. The
-- repository is not empty, no part holds an `@`, and the tag holds no colon.
pub derive_oci_application_artifact-reads :
    (release : Release) (repository tag digest : Text)
    → HoldsReference release repository tag digest
    → derive_oci_application_artifact release
      ≡ (codes "oci://" ++ repository, if is_empty digest then tag else digest)
derive_oci_application_artifact-reads release repository tag digest h =
    rw (reads_reference release repository tag digest h) (
      reads_made repository tag digest h.named h.no_at_in_repository h.no_at_in_tag
        h.no_colon_in_tag h.no_at_in_digest)
