-- ===== src/Service/Quiet.antt =====
-- What DispatchRelease of internal/release/service/release.go leaves to the worker that called it.
use devflow_service.Base.{
  Bool, Option, [], false, if◌then◌else◌, none, refl, some, subst, sym, true, ℕ, ◌||◌, ◌∙◌, ◌≡◌,
}
use devflow_service.Control.Remediation.{RemediationKind}
use devflow_service.Release.Steps.{is_release_terminal_status}
use devflow_service.Release.Types.{Release, ReleaseStatus, release_rollback}
use devflow_service.Runtime.Reconcile.Run.{quiet}
use devflow_service.Service.Dispatch.{dispatch_release}
use devflow_service.Service.Status.{
  change_status, load_release, normalize_release, rollback_result, same_status,
  sync_rollback_source, sync_source, update_status, write_remediation,
}
use devflow_service.Service.Store.{
  change_rows, get, get_now, live_row, lookup_row, or_no_rows, overwrite, update_argo_metadata,
  update_argo_metadata_now, update_row, update_row_now,
}
use devflow_service.Service.World.{
  M, Result, World, and_then, done, err, faulty, faulty_calm, ok, return, ◌>>=◌,
}
use devflow_service.Text.{Text, equal_fold, trim_space}

-- In a world whose statements succeed, the operation touches no intent, and the statements after it
-- succeed too.
abbrev pub IsQuiet {ℓ} : {A : Type ℓ} → M A → Type 0
IsQuiet m = (v : World) → v.faults ≡ [] → ((m v).1.intents ≡ v.intents) × ((m v).1.faults ≡ [])

return-IsQuiet {ℓ} : {A : Type ℓ} (a : A) → IsQuiet (return a)
return-IsQuiet a v calm = (refl, calm)

done-IsQuiet : IsQuiet done
done-IsQuiet v calm = (refl, calm)

and_then-quiet {ℓ κ} :
    {A : Type ℓ} {B : Type κ} (p : Result A × World) (f : A → M B) (v : World)
    → ((a : A) → IsQuiet (f a))
    → p.1.intents ≡ v.intents
    → p.1.faults ≡ []
    → ((and_then p f).1.intents ≡ v.intents) × ((and_then p f).1.faults ≡ [])
and_then-quiet (ok a, w) f v quiet same calm =
    let (kept, calm2) = quiet a w calm in (kept ∙ same, calm2)
and_then-quiet (err e, w) f v quiet same calm = (same, calm)

bind-IsQuiet {ℓ κ} :
    {A : Type ℓ} {B : Type κ} (m : M A) (f : A → M B)
    → IsQuiet m
    → ((a : A) → IsQuiet (f a))
    → IsQuiet (m >>= f)
bind-IsQuiet m f h k v calm = let (same, calm2) = h v calm in and_then-quiet (m v) f v k same calm2

faulty-IsQuiet {ℓ} : {A : Type ℓ} (m : M A) → IsQuiet m → IsQuiet (faulty m)
faulty-IsQuiet m h v calm =
    subst (λ (p : Result _ × World). (p.1.intents ≡ v.intents) × (p.1.faults ≡ []))
      (sym (faulty_calm m v calm)) (h v calm)

if-IsQuiet : (b : Bool) (m n : M (Unit {0})) → IsQuiet m → IsQuiet n → IsQuiet (if b then m else n)
if-IsQuiet true m n h k = h
if-IsQuiet false m n h k = k

or_no_rows-IsQuiet : (o : Option Release) → IsQuiet (or_no_rows o)
or_no_rows-IsQuiet none v calm = (refl, calm)
or_no_rows-IsQuiet (some row) v calm = (refl, calm)

change_rows-IsQuiet :
    (o : Option Release) (id : ℕ) (change : Release → Release) → IsQuiet (change_rows o id change)
change_rows-IsQuiet none id change v calm = (refl, calm)
change_rows-IsQuiet (some row) id change v calm = (refl, calm)

load_release-IsQuiet : (id : ℕ) → IsQuiet (load_release id)
unfolding load_release get get_now
load_release-IsQuiet id =
    bind-IsQuiet (get id) (λ row. return (normalize_release row))
      (faulty-IsQuiet (get_now id) (λ v. or_no_rows-IsQuiet (live_row id v.rows) v))
      (λ row. return-IsQuiet (normalize_release row))

update_row-IsQuiet : (release : Release) → IsQuiet (update_row release)
unfolding update_row update_row_now
update_row-IsQuiet release =
    faulty-IsQuiet (update_row_now release)
      (λ v. change_rows-IsQuiet (lookup_row release.id v.rows) release.id (overwrite release) v)

-- So are the phases that record the name of the Argo application.
pub update_argo_metadata-IsQuiet :
    (id : ℕ) (app_name external_ref : Text) (updated_at : ℕ)
    → IsQuiet (update_argo_metadata id app_name external_ref updated_at)
unfolding update_argo_metadata update_argo_metadata_now
update_argo_metadata-IsQuiet id app_name external_ref updated_at =
    faulty-IsQuiet (update_argo_metadata_now id app_name external_ref updated_at)
      (λ v. change_rows-IsQuiet (live_row id v.rows) id _ v)

sync_source-IsQuiet :
    (source : Option ℕ) (result : Option (RemediationKind × Text)) (now : ℕ)
    → IsQuiet (sync_source source result now)
unfolding write_remediation
sync_source-IsQuiet (some source) (some (kind, reason)) now =
    bind-IsQuiet (load_release source) _ (load_release-IsQuiet source)
      (λ release. update_row-IsQuiet _)
sync_source-IsQuiet (some source) none now = done-IsQuiet
sync_source-IsQuiet none result now = done-IsQuiet

change_status-IsQuiet :
    (release : Release) (status : ReleaseStatus) (now : ℕ)
    → IsQuiet (change_status release status now)
unfolding change_status sync_rollback_source
change_status-IsQuiet release status now =
    let changed = record release { status = status; updated_at = now } in
    if-IsQuiet (is_release_terminal_status release.status || same_status release.status status) done
      _ done-IsQuiet
      (bind-IsQuiet (update_row changed) (λ _. sync_rollback_source changed status now)
        (update_row-IsQuiet changed)
        (λ _.
          if-IsQuiet (equal_fold (trim_space release.action) release_rollback) _ done
            (sync_source-IsQuiet release.rollback_source_release_id (rollback_result status) now)
            done-IsQuiet))

update_status-IsQuiet :
    (id : ℕ) (status : ReleaseStatus) (now : ℕ) → IsQuiet (update_status id status now)
unfolding update_status
update_status-IsQuiet id status now =
    bind-IsQuiet (load_release id) (λ release. change_status release status now)
      (load_release-IsQuiet id) (λ release. change_status-IsQuiet release status now)

-- `DispatchRelease` is quiet where the phases of the deployment are.
pub dispatch_release-IsQuiet :
    (phases : Release → ℕ → M (Unit {0}))
    → ((release : Release) (now : ℕ) → IsQuiet (phases release now))
    → (id now : ℕ) → IsQuiet (dispatch_release phases id now)
unfolding dispatch_release
dispatch_release-IsQuiet phases quiet id now =
    bind-IsQuiet (load_release id) _ (load_release-IsQuiet id) (λ release.
      bind-IsQuiet (update_status release.id ReleaseStatus.syncing now) _
        (update_status-IsQuiet release.id ReleaseStatus.syncing now)
        (λ _. quiet (record release { status = ReleaseStatus.syncing }) now))
