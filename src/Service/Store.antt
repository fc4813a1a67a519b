-- ===== src/Service/Store.antt =====
-- internal/release/repository/repository.go: the table `releases`, whose primary key is `id`.
-- The SQL statements are read as operations on the list of rows.
pub mod Rows
use devflow_service.Base.{
  Bool, List, Option, [], false, if◌then◌else◌, leb, none, some, true, ℕ, ◌&&◌, ◌==◌, ◌||◌, ◌∷◌,
}
use devflow_service.Release.Types.{Release}
use devflow_service.Service.World.{M, err, fail, faulty, no_rows, ok, return, store_failed}
use devflow_service.Text.{Text, codes, is_empty, text_eq, trim_space}

unfoldable pub lookup_row : ℕ → List Release → Option Release
lookup_row id [] = none
lookup_row id (row ∷ rows) = if row.id == id then some row else lookup_row id rows

-- `update releases set ... where id = $1`.
unfoldable pub set_row : ℕ → (Release → Release) → List Release → List Release
set_row id change [] = []
set_row id change (row ∷ rows) =
    if row.id == id then change row ∷ set_row id change rows else row ∷ set_row id change rows

abbrev pub is_live : Release → Bool
is_live row = elim row.deleted_at [ none ↦ true | some t ↦ false ]

abbrev pub if_live : Option Release → Option Release
if_live none = none
if_live (some row) = if is_live row then some row else none

-- `where id = $1 and deleted_at is null`.
abbrev pub live_row : ℕ → List Release → Option Release
live_row id rows = if_live (lookup_row id rows)

abbrev pub or_no_rows : Option Release → M Release
or_no_rows none = fail no_rows
or_no_rows (some row) = return row

-- `dbsql.EnsureRowsAffected`: a statement that met no row fails with `sql.ErrNoRows`.
abbrev pub change_rows : Option Release → ℕ → (Release → Release) → M (Unit {0})
change_rows none id change w = (err no_rows, w)
change_rows (some row) id change w = (ok tt, record w { rows = set_row id change w.rows })

unfoldable pub get_now : ℕ → M Release
get_now id w = or_no_rows (live_row id w.rows) w

-- `Get`.
unfoldable pub get : ℕ → M Release
unfolding faulty get_now lookup_row
get id = faulty (get_now id)

-- The columns that `UpdateRow` sets: all but the key and `created_at`.
abbrev pub overwrite : Release → Release → Release
overwrite release row = record release { id = row.id; created_at = row.created_at }

unfoldable pub update_row_now : Release → M (Unit {0})
update_row_now release w =
    change_rows (lookup_row release.id w.rows) release.id (overwrite release) w

-- `UpdateRow`, which also writes to a deleted row.
unfoldable pub update_row : Release → M (Unit {0})
unfolding faulty update_row_now lookup_row set_row
update_row release = faulty (update_row_now release)

abbrev pub write_steps : Release → Release → Release
write_steps release row = record row { steps = release.steps; updated_at = release.updated_at }

unfoldable pub update_steps_now : Release → M (Unit {0})
update_steps_now release w =
    change_rows (live_row release.id w.rows) release.id (write_steps release) w

-- `UpdateSteps`.
unfoldable pub update_steps : Release → M (Unit {0})
unfolding faulty update_steps_now lookup_row set_row
update_steps release = faulty (update_steps_now release)

unfoldable pub delete_now : ℕ → ℕ → M (Unit {0})
delete_now id now w =
    change_rows (live_row id w.rows) id
      (λ row. record row { deleted_at = some now; updated_at = now }) w

-- `Delete`.
unfoldable pub delete : ℕ → ℕ → M (Unit {0})
unfolding faulty delete_now lookup_row set_row
delete id now = faulty (delete_now id now)

unfoldable pub update_argo_metadata_now : ℕ → Text → Text → ℕ → M (Unit {0})
update_argo_metadata_now id app_name external_ref updated_at w =
    change_rows (live_row id w.rows) id
      (λ row. record row {
        argocd_application_name = trim_space app_name;
        external_ref = trim_space external_ref;
        updated_at = updated_at;
      })
      w

-- `UpdateArgoMetadata`.
unfoldable pub update_argo_metadata : ℕ → Text → Text → ℕ → M (Unit {0})
unfolding faulty update_argo_metadata_now lookup_row set_row
update_argo_metadata id app_name external_ref updated_at =
    faulty (update_argo_metadata_now id app_name external_ref updated_at)

abbrev pub insert_unless : Option Release → Release → M (Unit {0})
insert_unless (some row) release w = (err (store_failed (codes "duplicate key")), w)
insert_unless none release w = (ok tt, record w { rows = release ∷ w.rows })

unfoldable pub insert_now : Release → M (Unit {0})
insert_now release w = insert_unless (lookup_row release.id w.rows) release w

-- `Insert`.
unfoldable pub insert : Release → M (Unit {0})
unfolding faulty insert_now lookup_row
insert release = faulty (insert_now release)

-- The clauses of `List` for an application and an environment, without deleted rows.
unfoldable pub selects : ℕ → Text → Release → Bool
selects application_id environment row =
    is_live row
    && row.application_id == application_id
    && (is_empty (trim_space environment) || text_eq row.environment_id (trim_space environment))

unfoldable pub insert_by_age : Release → List Release → List Release
insert_by_age row [] = row ∷ []
insert_by_age row (r ∷ rows) =
    if leb r.created_at row.created_at then row ∷ r ∷ rows else r ∷ insert_by_age row rows

-- `order by created_at desc`; the rows that the test selects.
unfoldable pub select_rows : (Release → Bool) → List Release → List Release
unfolding insert_by_age
select_rows test [] = []
select_rows test (row ∷ rows) =
    let rest = select_rows test rows in if test row then insert_by_age row rest else rest

unfoldable pub list_now : (Release → Bool) → M (List Release)
list_now test w = (ok (select_rows test w.rows), w)

-- `List`, for the filter that the test stands for.
unfoldable pub list : (Release → Bool) → M (List Release)
unfolding faulty list_now select_rows
list test = faulty (list_now test)
