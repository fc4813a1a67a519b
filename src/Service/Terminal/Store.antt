-- ===== src/Service/Terminal/Store.antt =====
-- The statements of the store keep the status of a row, where what they write agrees with it.
use devflow_service.Base.{
  ==_iff, Bool, Bool-cases, List, Option, Option-cases, [], arith, inl, inr, none, refl, some, ℕ,
  ◌==◌, ◌∷◌, ◌≡◌,
}
use devflow_service.Release.Types.{Release, ReleaseStatus}
use devflow_service.Service.Store.{
  change_rows, delete, delete_now, get, get_now, insert, insert_now, insert_unless, list, list_now,
  live_row, lookup_row, or_no_rows, overwrite, set_row, update_argo_metadata,
  update_argo_metadata_now, update_row, update_row_now, update_steps, update_steps_now, write_steps,
}
use devflow_service.Service.Store.Rows.{lookup-set_row}
use devflow_service.Service.Terminal.Kept.{Keeps, faulty-Keeps}
use devflow_service.Service.World.{World}
use devflow_service.Text.{Text}

pub lookup_row-id :
    (k : ℕ) (rows : List Release) (r : Release) → lookup_row k rows ≡ some r → r.id ≡ k
unfolding lookup_row
lookup_row-id k [] r h = cc
lookup_row-id k (row ∷ rows) r h = ground (arith, lookup_row-id k rows r)

module _ (id : ℕ) (s : ReleaseStatus) where
  -- The row of the release has the status.
  abbrev StatusIs : List Release → Type 0
  StatusIs rows = (r : Release) × (lookup_row id rows ≡ some r) × (r.status ≡ s)

  abbrev pub StatusAt : World → Type 0
  StatusAt w = StatusIs w.rows

  -- If this is that release, its status is that status.
  abbrev pub Agrees : Release → Type 0
  Agrees r = r.id ≡ id → r.status ≡ s

  abbrev pub Any {ℓ} : {A : Type ℓ} → A → Type 0
  Any a = Unit

  StatusIs-set_row :
      (k : ℕ) (change : Release → Release) (rows : List Release)
      → ((row : Release) → (change row).id ≡ row.id)
      → (k ≡ id → (row : Release) → row.status ≡ s → (change row).status ≡ s)
      → StatusIs rows
      → StatusIs (set_row k change rows)
  StatusIs-set_row k change rows keeps agrees (r, found, e) = elim (Bool-cases (k == id)) [
    | inl here ↦ (
      change r,
      rw (lookup-set_row id k change rows keeps, here, found) refl,
      agrees ((==_iff k id).0 here) r e,
    )
    | inr other_row ↦ (r, rw (lookup-set_row id k change rows keeps, other_row) found, e)
  ]

  change_rows-Keeps :
      (o : Option Release) (k : ℕ) (change : Release → Release) (w : World)
      → ((row : Release) → (change row).id ≡ row.id)
      → (k ≡ id → (row : Release) → row.status ≡ s → (change row).status ≡ s)
      → StatusAt w
      → Keeps StatusAt Any (change_rows o k change w)
  change_rows-Keeps none k change w keeps agrees h = h
  change_rows-Keeps (some row) k change w keeps agrees h =
      (StatusIs-set_row k change w.rows keeps agrees h, tt)

  live_row-Agrees :
      (k : ℕ) (rows : List Release) (r : Release)
      → StatusIs rows
      → live_row k rows ≡ some r
      → Agrees r
  live_row-Agrees k rows r (r', found, e) h here = elim (Option-cases (lookup_row k rows)) [
    | inl missing ↦ ground arith
    | inr (row, at) ↦ ground (arith, lookup_row-id k rows row at)
  ]

  or_no_rows-Keeps :
      (Q : Release → Type 0) (o : Option Release) (w : World)
      → ((r : Release) → o ≡ some r → Q r)
      → StatusAt w
      → Keeps StatusAt Q (or_no_rows o w)
  or_no_rows-Keeps Q none w facts h = h
  or_no_rows-Keeps Q (some r) w facts h = (h, facts r refl)

  live_row-id : (k : ℕ) (rows : List Release) (r : Release) → live_row k rows ≡ some r → r.id ≡ k
  live_row-id k rows r e = elim (Option-cases (lookup_row k rows)) [
    | inl missing ↦ ground arith
    | inr (row, at) ↦ ground (arith, lookup_row-id k rows row at)
  ]

  pub get_own-Keeps :
      (k : ℕ) (w : World)
      → StatusAt w
      → Keeps StatusAt (λ (r : Release). Agrees r × (r.id ≡ k)) (get k w)
  unfolding get get_now
  get_own-Keeps k w h =
      faulty-Keeps StatusIs (λ (r : Release). Agrees r × (r.id ≡ k)) (get_now k) w
        (λ w' h'.
          or_no_rows-Keeps (λ (r : Release). Agrees r × (r.id ≡ k)) (live_row k w'.rows) w'
            (λ r e. (live_row-Agrees k w'.rows r h' e, live_row-id k w'.rows r e)) h')
        h

  pub get-Keeps : (k : ℕ) (w : World) → StatusAt w → Keeps StatusAt Agrees (get k w)
  unfolding get get_now
  get-Keeps k w h =
      faulty-Keeps StatusIs Agrees (get_now k) w
        (λ w' h'.
          or_no_rows-Keeps Agrees (live_row k w'.rows) w' (λ r e. live_row-Agrees k w'.rows r h' e)
            h')
        h

  pub update_row-Keeps :
      (r : Release) (w : World) → Agrees r → StatusAt w → Keeps StatusAt Any (update_row r w)
  unfolding update_row update_row_now
  update_row-Keeps r w agrees h =
      faulty-Keeps StatusIs Any (update_row_now r) w
        (λ w' h'.
          change_rows-Keeps (lookup_row r.id w'.rows) r.id (overwrite r) w' (λ row. refl)
            (λ here row e. agrees here) h')
        h

  pub update_steps-Keeps :
      (r : Release) (w : World) → StatusAt w → Keeps StatusAt Any (update_steps r w)
  unfolding update_steps update_steps_now
  update_steps-Keeps r w h =
      faulty-Keeps StatusIs Any (update_steps_now r) w
        (λ w' h'.
          change_rows-Keeps (live_row r.id w'.rows) r.id (write_steps r) w' (λ row. refl)
            (λ here row e. e) h')
        h

  pub delete-Keeps : (k now : ℕ) (w : World) → StatusAt w → Keeps StatusAt Any (delete k now w)
  unfolding delete delete_now
  delete-Keeps k now w h =
      faulty-Keeps StatusIs Any (delete_now k now) w
        (λ w' h'. change_rows-Keeps (live_row k w'.rows) k _ w' (λ row. refl) (λ here row e. e) h')
        h

  pub update_argo_metadata-Keeps :
      (k : ℕ) (app_name external_ref : Text) (now : ℕ) (w : World)
      → StatusAt w
      → Keeps StatusAt Any (update_argo_metadata k app_name external_ref now w)
  unfolding update_argo_metadata update_argo_metadata_now
  update_argo_metadata-Keeps k app_name external_ref now w h =
      faulty-Keeps StatusIs Any (update_argo_metadata_now k app_name external_ref now) w
        (λ w' h'. change_rows-Keeps (live_row k w'.rows) k _ w' (λ row. refl) (λ here row e. e) h')
        h

  insert_unless-Keeps :
      (o : Option Release) (r : Release) (w : World)
      → lookup_row r.id w.rows ≡ o
      → StatusAt w
      → Keeps StatusAt Any (insert_unless o r w)
  unfolding lookup_row
  insert_unless-Keeps (some row) r w e h = h
  insert_unless-Keeps none r w e (row, found, q) = ((row, ground arith, q), tt)

  pub insert-Keeps : (r : Release) (w : World) → StatusAt w → Keeps StatusAt Any (insert r w)
  unfolding insert insert_now
  insert-Keeps r w h =
      faulty-Keeps StatusIs Any (insert_now r) w
        (λ w' h'. insert_unless-Keeps (lookup_row r.id w'.rows) r w' refl h') h

  pub list-Keeps :
      (test : Release → Bool) (w : World) → StatusAt w → Keeps StatusAt Any (list test w)
  unfolding list list_now
  list-Keeps test w h = faulty-Keeps StatusIs Any (list_now test) w (λ w' h'. (h', tt)) h
