-- ===== src/Intent/Worker.antt =====
-- internal/release/service/release_executor.go, and CreateReleaseIntent of
-- internal/intent/service/intent.go.
pub mod Settles
use devflow_service.Base.{Bool, Option, [], false, if◌then◌else◌, none, some, true, ℕ}
use devflow_service.Intent.Claim.{claim_next_pending_by_kind}
use devflow_service.Intent.Table.{
  bind_intent_to_release, insert_intent, mark_failed, mark_submitted,
}
use devflow_service.Intent.Types.{Intent, IntentStatus, intent_release}
use devflow_service.Release.Types.{Release, pending}
use devflow_service.Service.World.{
  M, Result, ServiceError, World, err, no_rows, ok, return, ◌>>=◌, ◌>>◌,
}
use devflow_service.Text.{Text, codes}

abbrev is_not_found : ServiceError → Bool
is_not_found no_rows = true
is_not_found _ = false

abbrev pub report : Result (Unit {0}) × World → (Bool × Option ServiceError) × World
report (ok x, w) = ((true, none), w)
report (err e, w) = ((true, some e), w)

-- `dispatchReleaseIntent` is a variable of the code, and `error_text` is the text of an error.
module _ (dispatch : ℕ → M (Unit {0})) (error_text : ServiceError → Text) where
  -- What follows the dispatch of the intent with the id; the error of `MarkFailed` is dropped.
  abbrev pub settle : ℕ → ℕ → Result (Unit {0}) × World → (Bool × Option ServiceError) × World
  settle id now (ok x, w) = report (mark_submitted id (codes "release dispatched") now w)
  settle id now (err e, w) = ((true, some e), (mark_failed id (error_text e) now w).1)

  abbrev pub execute : ℕ → Result Intent × World → (Bool × Option ServiceError) × World
  execute now (ok intent, w) = settle intent.id now (dispatch intent.resource_id w)
  execute now (err e, w) = ((false, (if is_not_found e then none else some e)), w)

  -- `ProcessNextReleaseIntent`: whether an intent was taken, and the error. It claims at `now` and
  -- marks at `later`.
  pub process_next_release_intent : Text → ℕ → ℕ → ℕ → World → (Bool × Option ServiceError) × World
  unfolding claim_next_pending_by_kind mark_submitted mark_failed
  process_next_release_intent worker lease now later w =
      execute later (claim_next_pending_by_kind intent_release worker now lease w)

abbrev pub new_release_intent : ℕ → ℕ → ℕ → Intent
new_release_intent release_id fresh now = record {
  id = fresh;
  created_at = now;
  updated_at = now;
  deleted_at = none;
  kind = intent_release;
  status = IntentStatus.pending;
  resource_type = codes "release";
  resource_id = release_id;
  trace_id = [];
  message = [];
  last_error = [];
  claimed_by = [];
  claimed_at = none;
  lease_expires_at = none;
  attempt_count = 0;
}

-- `CreateReleaseIntent`, with the id that `uuid.New` makes, which is not the nil one. It gives back
-- the release with the id in it.
unfoldable pub create_release_intent : Release → ℕ → ℕ → M Release
unfolding insert_intent bind_intent_to_release
create_release_intent release fresh now = do
  insert_intent (new_release_intent release.id fresh now)
  bind_intent_to_release release.id fresh now
  return (record release { execution_intent_id = some fresh })
