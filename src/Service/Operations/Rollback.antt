-- ===== src/Service/Operations/Rollback.antt =====
-- Where syncRollbackSource of internal/release/service/release_remediation_manager.go writes.
use devflow_service.Base.{
  ==_iff, Bool-cases, List, Option, arith, inl, inr, none, refl, some, sym, true, ℕ, ◌==◌, ◌∙◌, ◌≡◌,
  ◌≢◌,
}
use devflow_service.Control.Remediation.{RemediationKind}
use devflow_service.Release.Types.{Release, ReleaseStatus, release_rollback}
use devflow_service.Service.Calm.{live_row-lookup}
use devflow_service.Service.Operations.{is_candidate, rollback_release}
use devflow_service.Service.Status.{
  load_release, normalize_release, remediation_text, rollback_result, sync_rollback_source,
  sync_source, write_remediation,
}
use devflow_service.Service.Store.{
  change_rows, get, get_now, live_row, lookup_row, or_no_rows, set_row, update_row, update_row_now,
}
use devflow_service.Service.Store.Rows.{lookup-set_row}
use devflow_service.Service.Terminal.Kept.{Keeps, Keeps-bind, Keeps-state, faulty-Keeps}
use devflow_service.Service.Terminal.Store.{lookup_row-id}
use devflow_service.Service.World.{World}
use devflow_service.Text.{Text, equal_fold, trim_space}

module _ (id : ℕ) (o : Option Release) where
  -- The row of the release is as it was.
  abbrev RowIs : List Release → Type 0
  RowIs rows = lookup_row id rows ≡ o

  abbrev RowAt : World → Type 0
  RowAt w = RowIs w.rows

  RowIs-set_row :
      (k : ℕ) (change : Release → Release) (rows : List Release)
      → ((row : Release) → (change row).id ≡ row.id)
      → k ≢ id
      → RowIs rows
      → RowIs (set_row k change rows)
  RowIs-set_row k change rows keeps apart h = elim (Bool-cases (k == id)) [
    | inl here ↦ absurd (apart ((==_iff k id).0 here))
    | inr away ↦ lookup-set_row id k change rows keeps ∙ rw away h
  ]

  change_rows-RowAt :
      (r : Option Release) (k : ℕ) (change : Release → Release) (w : World)
      → ((row : Release) → (change row).id ≡ row.id)
      → k ≢ id
      → RowAt w
      → Keeps RowAt (λ x. Unit {0}) (change_rows r k change w)
  change_rows-RowAt none k change w keeps apart h = h
  change_rows-RowAt (some row) k change w keeps apart h =
      (RowIs-set_row k change w.rows keeps apart h, tt)

  or_no_rows-RowAt :
      (k : ℕ) (r : Option Release) (w : World)
      → ((x : Release) → r ≡ some x → x.id ≡ k)
      → RowAt w
      → Keeps RowAt (λ (x : Release). x.id ≡ k) (or_no_rows r w)
  or_no_rows-RowAt k none w own h = h
  or_no_rows-RowAt k (some x) w own h = (h, own x refl)

  load_release-RowAt :
      (k : ℕ) (w : World) → RowAt w → Keeps RowAt (λ (x : Release). x.id ≡ k) (load_release k w)
  unfolding load_release get get_now normalize_release
  load_release-RowAt k w h =
      Keeps-bind RowAt (λ (x : Release). x.id ≡ k) (λ (x : Release). x.id ≡ k) (get k w) _
        (faulty-Keeps RowIs (λ (x : Release). x.id ≡ k) (get_now k) w
          (λ w' h'.
            or_no_rows-RowAt k (live_row k w'.rows) w'
              (λ x e. lookup_row-id k w'.rows x (live_row-lookup k w'.rows x e).0) h')
          h)
        (λ x own w' h'. (h', own))

  write_remediation-RowAt :
      (k : ℕ) (status reason : Text) (now : ℕ) (w : World)
      → k ≢ id
      → RowAt w
      → Keeps RowAt (λ x. Unit {0}) (write_remediation k status reason now w)
  unfolding write_remediation update_row update_row_now
  write_remediation-RowAt k status reason now w apart h =
      Keeps-bind RowAt (λ (x : Release). x.id ≡ k) (λ x. Unit {0}) (load_release k w) _
        (load_release-RowAt k w h)
        (λ x own w' h'.
          faulty-Keeps RowIs (λ y. Unit {0}) _ w'
            (λ w'' h''.
              change_rows-RowAt (lookup_row x.id w''.rows) x.id _ w'' (λ row. refl)
                (λ e. apart (sym own ∙ e)) h'')
            h')

  sync_source-RowAt :
      (k : ℕ) (result : Option (RemediationKind × Text)) (now : ℕ) (w : World)
      → k ≢ id
      → RowAt w
      → Keeps RowAt (λ x. Unit {0}) (sync_source (some k) result now w)
  sync_source-RowAt k none now w apart h = (h, tt)
  sync_source-RowAt k (some (kind, reason)) now w apart h =
      write_remediation-RowAt k (remediation_text kind) reason now w apart h

-- The result of a rollback does not reach the release that was rolled back: whatever the status of
-- the rollback release becomes, and whatever the database answers, the row of that release stays
-- as it is.
pub rollback_result_missed :
    (release target : Release) (fresh now later : ℕ) (status : ReleaseStatus) (w : World)
    → is_candidate release.id target ≡ true
    → lookup_row release.id
        (sync_rollback_source (rollback_release release target fresh now) status later w).1.rows
      ≡ lookup_row release.id w.rows
unfolding sync_rollback_source rollback_release is_candidate
rollback_result_missed release target fresh now later status w candidate =
    let apart : target.id ≢ release.id = λ e. ground arith in
    elim (Bool-cases (equal_fold (trim_space release_rollback) release_rollback)) [
      | inl e ↦ rw e (
          Keeps-state (RowAt release.id (lookup_row release.id w.rows)) (λ x. Unit {0}) _
            (sync_source-RowAt release.id (lookup_row release.id w.rows) target.id
              (rollback_result status) later w apart refl))
      | inr e ↦ rw e refl
    ]
