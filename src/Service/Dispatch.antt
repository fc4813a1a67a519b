-- ===== src/Service/Dispatch.antt =====
-- DispatchRelease of internal/release/service/release.go. `phases` is executeReleasePhases, which
-- renders the bundle and applies the Argo application.
use devflow_service.Base.{[], refl, some, subst, sym, true, ℕ, ◌∙◌, ◌≡◌}
use devflow_service.Release.Steps.{is_release_terminal_status}
use devflow_service.Release.Types.{Release, ReleaseStatus}
use devflow_service.Service.Calm.{live_row-lookup, load_release-calm}
use devflow_service.Service.Status.{change_status, load_release, normalize_release, update_status}
use devflow_service.Service.Store.{live_row}
use devflow_service.Service.Terminal.Store.{lookup_row-id}
use devflow_service.Service.World.{M, World, ok, ◌>>=◌, ◌>>◌}

module _ (phases : Release → ℕ → M (Unit {0})) where
  -- `DispatchRelease`.
  unfoldable pub dispatch_release : ℕ → ℕ → M (Unit {0})
  unfolding load_release update_status
  dispatch_release id now = do
    release ← load_release id
    update_status release.id ReleaseStatus.syncing now
    phases (record release { status = ReleaseStatus.syncing }) now

normalize-id : (r : Release) → (normalize_release r).id ≡ r.id
unfolding normalize_release
normalize-id r = refl

normalize-status : (r : Release) → (normalize_release r).status ≡ r.status
unfolding normalize_release
normalize-status r = refl

ended_change :
    (release : Release) (status : ReleaseStatus) (now : ℕ) (w : World)
    → is_release_terminal_status release.status ≡ true
    → change_status release status now w ≡ (ok tt, w)
unfolding change_status
ended_change release status now w h = rw h refl

ended_update :
    (id : ℕ) (status : ReleaseStatus) (now : ℕ) (w : World) (r : Release)
    → w.faults ≡ []
    → live_row id w.rows ≡ some r
    → is_release_terminal_status r.status ≡ true
    → update_status id status now w ≡ (ok tt, w)
unfolding update_status
ended_update id status now w r calm here h =
    rw (load_release-calm id w r calm here)
      (ended_change (normalize_release r) status now w (rw (normalize-status r) h))

-- `DispatchRelease` of a release that has ended leaves its row as it is and goes on with the phases
-- of a deployment, on a copy of the release that says `Syncing`, where no statement fails.
pub dispatch_release-ended :
    (phases : Release → ℕ → M (Unit {0})) (id now : ℕ) (w : World) (r : Release)
    → w.faults ≡ []
    → live_row id w.rows ≡ some r
    → is_release_terminal_status r.status ≡ true
    → dispatch_release phases id now w
      ≡ phases (record (normalize_release r) { status = ReleaseStatus.syncing }) now w
unfolding dispatch_release
dispatch_release-ended phases id now w r calm here h =
    let same = lookup_row-id id w.rows r (live_row-lookup id w.rows r here).0 in
    let found = subst (λ (k : ℕ). live_row k w.rows ≡ some r) (sym (normalize-id r ∙ same)) here in
    rw
      (
        load_release-calm id w r calm here,
        ended_update (normalize_release r).id ReleaseStatus.syncing now w r calm found h,
      )
      refl
