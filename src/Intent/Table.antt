-- ===== src/Intent/Table.antt =====
-- internal/intent/repository/repository.go: the table `execution_intents`, with the primary key `id`.
use devflow_service.Base.{
  Bool, List, Option, [], false, if◌then◌else◌, none, some, true, ℕ, ◌&&◌, ◌==◌, ◌∷◌,
}
use devflow_service.Intent.Types.{Intent, IntentKind, IntentStatus, same_kind}
use devflow_service.Service.Store.{change_rows, live_row, lookup_row, set_row}
use devflow_service.Service.World.{M, err, faulty, no_rows, ok, store_failed}
use devflow_service.Text.{Text, codes}

-- Each SQL statement is one step: `for update skip locked` makes concurrent claims take different
-- rows, so they act like claims that follow one another.

abbrev pub is_live_intent : Intent → Bool
is_live_intent row = elim row.deleted_at [ none ↦ true | some t ↦ false ]

-- The rows that a `where` clause meets, changed; the others as they are.
unfoldable pub set_where : (Intent → Bool) → (Intent → Intent) → List Intent → List Intent
set_where test change [] = []
set_where test change (row ∷ rows) =
    (if test row then change row else row) ∷ set_where test change rows

unfoldable pub first_where : (Intent → Bool) → List Intent → Option Intent
first_where test [] = none
first_where test (row ∷ rows) = if test row then some row else first_where test rows

-- `where id = $1 and deleted_at is null`.
abbrev pub has_id : ℕ → Intent → Bool
has_id id row = row.id == id && is_live_intent row

-- `dbsql.EnsureRowsAffected`: a statement that met no row fails with `sql.ErrNoRows`.
abbrev pub change_intents : Option Intent → (Intent → Bool) → (Intent → Intent) → M (Unit {0})
change_intents none test change w = (err no_rows, w)
change_intents (some row) test change w =
    (ok tt, record w { intents = set_where test change w.intents })

unfoldable pub change_where : (Intent → Bool) → (Intent → Intent) → M (Unit {0})
unfolding first_where set_where
change_where test change w = change_intents (first_where test w.intents) test change w

abbrev pub insert_unless_taken : Option Intent → Intent → M (Unit {0})
insert_unless_taken (some row) intent w = (err (store_failed (codes "duplicate key")), w)
insert_unless_taken none intent w = (ok tt, record w { intents = intent ∷ w.intents })

-- `Insert`.
unfoldable pub insert_intent : Intent → M (Unit {0})
unfolding faulty first_where
insert_intent intent =
    faulty λ w. insert_unless_taken (first_where (λ row. row.id == intent.id) w.intents) intent w

-- What `UpdateStatus` writes into a row: the claim stays.
abbrev pub restated : IntentStatus → Text → ℕ → Intent → Intent
restated status message now row = record row {
  status = status;
  message = message;
  last_error = [];
  updated_at = now;
}

-- `UpdateStatus`.
unfoldable pub update_intent_status : ℕ → IntentStatus → Text → ℕ → M (Unit {0})
unfolding faulty change_where same_kind
update_intent_status id status message now =
    faulty (change_where (has_id id) (restated status message now))

-- What `MarkSubmitted` and `MarkFailed` write into a row.
abbrev pub settled : IntentStatus → Text → Text → ℕ → Intent → Intent
settled status message last_error now row = record row {
  status = status;
  message = message;
  last_error = last_error;
  updated_at = now;
  claimed_by = [];
  claimed_at = none;
  lease_expires_at = none;
}

-- `MarkSubmitted`.
unfoldable pub mark_submitted : ℕ → Text → ℕ → M (Unit {0})
unfolding faulty change_where same_kind
mark_submitted id message now =
    faulty (change_where (has_id id) (settled IntentStatus.running message [] now))

-- `MarkFailed`.
unfoldable pub mark_failed : ℕ → Text → ℕ → M (Unit {0})
unfolding faulty change_where same_kind
mark_failed id message now =
    faulty (change_where (has_id id) (settled IntentStatus.failed message message now))

abbrev pub has_resource : IntentKind → ℕ → Intent → Bool
has_resource kind resource_id row =
    same_kind row.kind kind && row.resource_id == resource_id && is_live_intent row

-- What `UpdateStatusByResource` writes into a row: the last error stays as well.
abbrev pub restated_resource : IntentStatus → Text → ℕ → Intent → Intent
restated_resource status message now row = record row {
  status = status;
  message = message;
  updated_at = now;
}

-- `UpdateStatusByResource`.
unfoldable pub update_status_by_resource : IntentKind → ℕ → IntentStatus → Text → ℕ → M (Unit {0})
unfolding faulty change_where same_kind
update_status_by_resource kind resource_id status message now =
    faulty (change_where (has_resource kind resource_id) (restated_resource status message now))

-- `BindIntentToRelease`, which writes to the table of releases.
unfoldable pub bind_intent_to_release : ℕ → ℕ → ℕ → M (Unit {0})
unfolding faulty lookup_row set_row
bind_intent_to_release release_id intent_id now = faulty λ w.
    change_rows (live_row release_id w.rows) release_id
      (λ row. record row { execution_intent_id = some intent_id; updated_at = now }) w
