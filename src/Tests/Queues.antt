-- ===== src/Tests/Queues.antt =====
-- The queue of intents.
use devflow_service.Base.{Option, [], arith, refl, ℕ, ◌+◌, ◌∷◌, ◌≡◌, ◌≢◌}
use devflow_service.Intent.Claim.{
  claim_found, claim_next_pending_by_kind, claim_row, claim_where, is_claimable, is_claimable_of,
  oldest,
}
use devflow_service.Intent.Claim.Order.{FirstInLine, claim_takes_oldest}
use devflow_service.Intent.Lease.{serve, serve_call, submits}
use devflow_service.Intent.Lease.Exclusive.{lease_excludes}
use devflow_service.Intent.Table.{change_where, first_where, mark_submitted, set_where}
use devflow_service.Intent.Types.{Intent, IntentKind, intent_build, intent_release, same_kind}
use devflow_service.Intent.Worker.{new_release_intent, process_next_release_intent}
use devflow_service.Intent.Worker.Settles.{Round, worker_settles}
use devflow_service.Release.Types.{Release, ReleaseStatus}
use devflow_service.Service.Dispatch.{dispatch_release}
use devflow_service.Service.Quiet.{dispatch_release-IsQuiet, update_argo_metadata-IsQuiet}
use devflow_service.Service.Store.{update_argo_metadata}
use devflow_service.Service.World.{M, World, faulty}
use devflow_service.Tests.Data.{release_of}
use devflow_service.Text.{Text, codes, is_empty}

abbrev intent_of : ℕ → ℕ → IntentKind → Intent
intent_of id created_at kind = record (new_release_intent 3 id created_at) {
  kind = kind;
  resource_id = id + 10;
}

abbrev queue : World
queue = record {
  rows = [];
  intents =
      intent_of 1 5 intent_build ∷ intent_of 2 7 intent_release ∷ intent_of 3 6 intent_release ∷ [];
  manifests = [];
  faults = [];
}

abbrev worker_a : Text
worker_a = codes "worker-a"

abbrev claimed_three : Intent
claimed_three = claim_row worker_a 10 30 (intent_of 3 6 intent_release)

abbrev claimed_two : Intent
claimed_two = claim_row (codes "worker-b") 30 30 (intent_of 2 7 intent_release)

claim_takes_oldest_example :
    (o : Option Intent) × FirstInLine (is_claimable_of intent_release 10) queue.intents o
    × (claim_next_pending_by_kind intent_release worker_a 10 30 queue
        ≡ claim_found o worker_a 10 30 queue)
claim_takes_oldest_example = claim_takes_oldest intent_release worker_a 10 30 queue refl

lease_excludes_example : claimed_two.id ≢ claimed_three.id
unfolding claim_next_pending_by_kind claim_where oldest is_claimable_of is_claimable same_kind serve
    serve_call mark_submitted change_where faulty first_where set_where claim_row is_empty
lease_excludes_example =
    lease_excludes intent_release worker_a 10 30 queue claimed_three refl refl
      (submits 1 [] 20 ∷ []) (tt, tt) intent_release (codes "worker-b") 30 30 claimed_two
      (omega arith) refl

-- The program's dispatch, with phases that record the name of the Argo application.
abbrev recorded : Release → ℕ → M (Unit {0})
recorded r now = update_argo_metadata r.id (codes "shop") (codes "shop") now

abbrev dispatched : ℕ → M (Unit {0})
dispatched id = dispatch_release recorded id 11

abbrev queue_of_thirteen : World
queue_of_thirteen = record queue { rows = release_of 13 ReleaseStatus.pending [] ∷ [] }

worker_settles_example :
    Round dispatched worker_a 10 30 queue_of_thirteen
      (oldest (is_claimable_of intent_release 10) queue_of_thirteen.intents)
      (process_next_release_intent dispatched
        (λ e. codes "down")
        worker_a
        30
        10
        12
        queue_of_thirteen)
worker_settles_example =
    worker_settles dispatched (λ e. codes "down")
      (λ id.
        dispatch_release-IsQuiet recorded
          (λ r now. update_argo_metadata-IsQuiet r.id (codes "shop") (codes "shop") now) id 11)
      worker_a 30 10 12 queue_of_thirteen refl
