-- ===== src/Service/Calm.antt =====
-- The statements of internal/release/repository/repository.go when the database answers each.
use devflow_service.Base.{
  ==_iff, Bool-cases, List, Option, [], ap, inl, inr, none, refl, some, subst, true, ℕ, ◌∙◌, ◌≡◌,
}
use devflow_service.Release.Types.{Release}
use devflow_service.Service.Status.{load_release, normalize_release}
use devflow_service.Service.Store.{
  change_rows, get, get_now, if_live, is_live, live_row, lookup_row, or_no_rows, overwrite, set_row,
  update_row, update_row_now, update_steps, update_steps_now, write_steps,
}
use devflow_service.Service.Store.Rows.{lookup-set_row}
use devflow_service.Service.World.{World, and_then, faulty_calm, ok, return}

pub load_release-calm :
    (id : ℕ) (w : World) (r : Release)
    → w.faults ≡ []
    → live_row id w.rows ≡ some r
    → load_release id w ≡ (ok (normalize_release r), w)
unfolding load_release get get_now
load_release-calm id w r calm here =
    ap (λ m. and_then m (λ row. return (normalize_release row)))
      (faulty_calm (get_now id) w calm ∙ ap (λ (o : Option Release). or_no_rows o w) here)

pub update_steps-calm :
    (release : Release) (w : World) (r : Release)
    → w.faults ≡ []
    → live_row release.id w.rows ≡ some r
    → update_steps release w
      ≡ (ok tt, record w { rows = set_row release.id (write_steps release) w.rows })
unfolding update_steps update_steps_now
update_steps-calm release w r calm here =
    faulty_calm (update_steps_now release) w calm
    ∙ ap (λ (o : Option Release). change_rows o release.id (write_steps release) w) here

pub update_row-calm :
    (release : Release) (w : World) (r : Release)
    → w.faults ≡ []
    → lookup_row release.id w.rows ≡ some r
    → update_row release w
      ≡ (ok tt, record w { rows = set_row release.id (overwrite release) w.rows })
unfolding update_row update_row_now
update_row-calm release w r calm here =
    faulty_calm (update_row_now release) w calm
    ∙ ap (λ (o : Option Release). change_rows o release.id (overwrite release) w) here

some_injective : (a b : Release) → Path (Option Release) (some a) (some b) → a ≡ b
some_injective a b e = cc

if_live-some : (r : Release) → is_live r ≡ true → if_live (some r) ≡ some r
if_live-some r live = rw live refl

live_found :
    (o : Option Release) (r : Release) → if_live o ≡ some r → (o ≡ some r) × (is_live r ≡ true)
live_found none r h = cc
live_found (some row) r h = elim (Bool-cases (is_live row)) [
  | inl on ↦
      let e = some_injective row r (rw on at h) in
      (ap some e, subst (λ (x : Release). is_live x ≡ true) e on)
  | inr off ↦ absurd (cc (rw off at h))
]

-- A live row is a row.
pub live_row-lookup :
    (id : ℕ) (rows : List Release) (r : Release)
    → live_row id rows ≡ some r
    → (lookup_row id rows ≡ some r) × (is_live r ≡ true)
live_row-lookup id rows r h = live_found (lookup_row id rows) r h

-- The row after a write that keeps the id.
pub lookup_row-written :
    (id : ℕ) (change : Release → Release) (rows : List Release) (r : Release)
    → ((row : Release) → (change row).id ≡ row.id)
    → lookup_row id rows ≡ some r
    → lookup_row id (set_row id change rows) ≡ some (change r)
lookup_row-written id change rows r keeps here =
    lookup-set_row id id change rows keeps ∙ rw ((==_iff id id).1 refl, here) refl

-- The same row as a live one, if the write keeps the deletion time.
pub live_row-written :
    (id : ℕ) (change : Release → Release) (rows : List Release) (r : Release)
    → ((row : Release) → (change row).id ≡ row.id)
    → is_live (change r) ≡ true
    → lookup_row id rows ≡ some r
    → live_row id (set_row id change rows) ≡ some (change r)
live_row-written id change rows r keeps live here =
    ap if_live (lookup_row-written id change rows r keeps here) ∙ if_live-some (change r) live
