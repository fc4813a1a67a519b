-- ===== src/Intent/Claim.antt =====
-- `ClaimNextPending` and `ClaimNextPendingByKind` of internal/intent/repository/repository.go.
pub mod Order
use devflow_service.Base.{
  Bool, List, Option, [], if◌then◌else◌, leb, ltb, none, some, true, ℕ, ◌&&◌, ◌+◌, ◌==◌, ◌||◌, ◌∷◌,
}
use devflow_service.Intent.Table.{is_live_intent, set_where}
use devflow_service.Intent.Types.{Intent, IntentKind, is_pending_intent, same_kind}
use devflow_service.Service.World.{M, err, faulty, no_rows, ok}
use devflow_service.Text.{Text, codes, is_empty}

-- `lease_expires_at is null or lease_expires_at < now`.
abbrev lease_is_over : Option ℕ → ℕ → Bool
lease_is_over none now = true
lease_is_over (some expires_at) now = ltb expires_at now

-- The `where` clause of the inner query, without the kind.
unfoldable pub is_claimable : ℕ → Intent → Bool
is_claimable now row =
    is_pending_intent row.status
    && is_live_intent row
    && (is_empty row.claimed_by || lease_is_over row.lease_expires_at now)

-- With the kind.
unfoldable pub is_claimable_of : IntentKind → ℕ → Intent → Bool
unfolding is_claimable same_kind
is_claimable_of kind now row = same_kind row.kind kind && is_claimable now row

abbrev pub older : Intent → Option Intent → Intent
older row none = row
older row (some r) = if leb row.created_at r.created_at then row else r

-- `order by created_at asc limit 1`. Of two rows created at one instant the database may take
-- either; here it is the first of the list.
unfoldable pub oldest : (Intent → Bool) → List Intent → Option Intent
oldest test [] = none
oldest test (row ∷ rows) =
    let rest = oldest test rows in if test row then some (older row rest) else rest

-- The `set` clause.
unfoldable pub claim_row : Text → ℕ → ℕ → Intent → Intent
claim_row worker now lease row = record row {
  claimed_by = worker;
  claimed_at = some now;
  lease_expires_at = some (now + lease);
  updated_at = now;
  message = codes "claimed by worker";
  attempt_count = row.attempt_count + 1;
}

-- The outer statement, on the row that the inner query found: `where id = (...) returning ...`.
abbrev pub claim_found : Option Intent → Text → ℕ → ℕ → M Intent
claim_found none worker now lease w = (err no_rows, w)
claim_found (some row) worker now lease w = (
  ok (claim_row worker now lease row),
  record w { intents = set_where (λ r. r.id == row.id) (claim_row worker now lease) w.intents },
)

unfoldable pub claim_where : (Intent → Bool) → Text → ℕ → ℕ → M Intent
unfolding oldest claim_row set_where
claim_where test worker now lease w = claim_found (oldest test w.intents) worker now lease w

-- `ClaimNextPending`.
unfoldable pub claim_next_pending : Text → ℕ → ℕ → M Intent
unfolding faulty claim_where is_claimable
claim_next_pending worker now lease = faulty (claim_where (is_claimable now) worker now lease)

-- `ClaimNextPendingByKind`.
unfoldable pub claim_next_pending_by_kind : IntentKind → Text → ℕ → ℕ → M Intent
unfolding faulty claim_where is_claimable_of
claim_next_pending_by_kind kind worker now lease =
    faulty (claim_where (is_claimable_of kind now) worker now lease)
