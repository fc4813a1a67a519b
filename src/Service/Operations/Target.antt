-- ===== src/Service/Operations/Target.antt =====
-- Which release selectRollbackTarget of internal/release/service/release_operation_manager.go takes.
use mathlib.Core.List.{Memᴰ}
use devflow_service.Base.{
  All, All-mono, Bool, Bool-cases, List, Option, [], ap, arith, false, if◌then◌else◌, inl, inr,
  le_of_not-ltb, leb, ltb, ltb→lt, none, refl, some, subst, sym, true, ◌&&◌, ◌∙◌, ◌∷◌, ◌≡◌, ◌≤◌,
  ◌⊎◌,
}
use devflow_service.Release.Types.{Release}
use devflow_service.Service.Operations.{is_candidate, newest, or_no_target, select_rollback_target}
use devflow_service.Service.Store.{insert_by_age, list, list_now, select_rows, selects}
use devflow_service.Service.World.{World, and_then, faulty_calm}

-- The newest of the rows that satisfy the test, or none where no row does.
abbrev pub Newest : (Release → Bool) → List Release → Option Release → Type 0
Newest test rows none = All (λ (x : Release). test x ≡ false) rows
Newest test rows (some r) =
    Memᴰ r rows
    × (test r ≡ true)
    × All (λ (x : Release). test x ≡ true → x.created_at ≤ r.created_at) rows

Newest-skip :
    (test : Release → Bool) (x : Release) (rows : List Release) (o : Option Release)
    → test x ≡ false
    → Newest test rows o
    → Newest test (x ∷ rows) o
Newest-skip test x rows none off h = (off, h)
Newest-skip test x rows (some r) off (m, on, h) = (Memᴰ.tail m, on, ((λ e. cc), h))

newer : Release → Option Release → Release
newer item none = item
newer item (some r) = if ltb item.created_at r.created_at then r else item

Newest-newer :
    (test : Release → Bool) (x : Release) (rows : List Release) (o : Option Release)
    → test x ≡ true
    → Newest test rows o
    → Newest test (x ∷ rows) (some (newer x o))
unfolding newer
Newest-newer test x rows none on h = (
  Memᴰ.head refl,
  on,
  (
    (λ e. omega arith),
    All-mono (λ (y : Release). test y ≡ false)
        (λ (y : Release). test y ≡ true → y.created_at ≤ x.created_at) (λ y off e. cc) rows h,
  ),
)
Newest-newer test x rows (some r) on (m, on', h) =
    elim (Bool-cases (ltb x.created_at r.created_at)) [
      | inl lt ↦
          subst (λ (y : Release). Newest test (x ∷ rows) (some y)) (rw lt)
            (Memᴰ.tail m, on', ((λ e. omega (arith, ltb→lt _ _ lt)), h))
      | inr ge ↦
          subst (λ (y : Release). Newest test (x ∷ rows) (some y)) (rw ge)
            (
              Memᴰ.head refl,
              on,
              (
                (λ e. omega arith),
                All-mono (λ (y : Release). test y ≡ true → y.created_at ≤ r.created_at)
                    (λ (y : Release). test y ≡ true → y.created_at ≤ x.created_at)
                    (λ y k e. omega (arith, k e, le_of_not-ltb _ _ ge)) rows h,
              ),
            )
    ]

newest-some :
    (test : Release → Bool) (x : Release) (rows : List Release) (o : Option Release)
    → newest test rows ≡ o
    → test x ≡ true
    → newest test (x ∷ rows) ≡ some (newer x o)
unfolding newest newer
newest-some test x rows none e on = rw (on, e) refl
newest-some test x rows (some r) e on = elim (Bool-cases (ltb x.created_at r.created_at)) [
  | inl lt ↦ rw (on, e, lt) refl
  | inr ge ↦ rw (on, e, ge) refl
]

newest-Newest : (test : Release → Bool) (rows : List Release) → Newest test rows (newest test rows)
unfolding newest
newest-Newest test [] = tt
newest-Newest test (x ∷ rows) = elim (Bool-cases (test x)) [
  | inl on ↦
      subst (Newest test (x ∷ rows)) (sym (newest-some test x rows (newest test rows) refl on))
        (Newest-newer test x rows (newest test rows) on (newest-Newest test rows))
  | inr off ↦ rw off (Newest-skip test x rows (newest test rows) off (newest-Newest test rows))
]

cons-cases : (r x : Release) (rows : List Release) → Memᴰ r (x ∷ rows) → (r ≡ x) ⊎ Memᴰ r rows
cons-cases r x rows (Memᴰ.head e) = inl e
cons-cases r x rows (Memᴰ.tail m) = inr m

-- Rows in the order of their age.
insert_by_age-Memᴰ :
    (r row : Release) (rows : List Release)
    → Memᴰ r (insert_by_age row rows)
    → (r ≡ row) ⊎ Memᴰ r rows
unfolding insert_by_age
insert_by_age-Memᴰ r row [] m = cons-cases r row [] m
insert_by_age-Memᴰ r row (x ∷ rows) m = elim (Bool-cases (leb x.created_at row.created_at)) [
  | inl le ↦ cons-cases r row (x ∷ rows) (rw le at m)
  | inr gt ↦ elim (cons-cases r x (insert_by_age row rows) (rw gt at m)) [
    | inl e ↦ inr (Memᴰ.head e)
    | inr later ↦ elim (insert_by_age-Memᴰ r row rows later) [
      | inl e ↦ inl e
      | inr k ↦ inr (Memᴰ.tail k)
    ]
  ]
]

insert_by_age-All {κ} :
    (P : Release → Type κ) (row : Release) (rows : List Release)
    → All P (insert_by_age row rows)
    → P row × All P rows
unfolding insert_by_age
insert_by_age-All P row [] h = h
insert_by_age-All P row (x ∷ rows) h = elim (Bool-cases (leb x.created_at row.created_at)) [
  | inl le ↦ rw le at h
  | inr gt ↦
      let (p, later) = rw gt at h in
      let (q, rest) = insert_by_age-All P row rows later in (q, (p, rest))
]

select_rows-Memᴰ :
    (test : Release → Bool) (r : Release) (rows : List Release)
    → Memᴰ r (select_rows test rows)
    → Memᴰ r rows × (test r ≡ true)
unfolding select_rows
select_rows-Memᴰ test r [] m = elim m [ ]
select_rows-Memᴰ test r (x ∷ rows) m = elim (Bool-cases (test x)) [
  | inl on ↦ elim (insert_by_age-Memᴰ r x (select_rows test rows) (rw on at m)) [
    | inl e ↦ (Memᴰ.head e, ap test e ∙ on)
    | inr k ↦ let (k', on') = select_rows-Memᴰ test r rows k in (Memᴰ.tail k', on')
  ]
  | inr off ↦ let (k', on') = select_rows-Memᴰ test r rows (rw off at m) in (Memᴰ.tail k', on')
]

select_rows-All {κ} :
    (P : Release → Type κ) (test : Release → Bool) (rows : List Release)
    → All P (select_rows test rows)
    → All (λ (x : Release). test x ≡ true → P x) rows
unfolding select_rows
select_rows-All P test [] h = tt
select_rows-All P test (x ∷ rows) h = elim (Bool-cases (test x)) [
  | inl on ↦
      let (p, rest) = insert_by_age-All P x (select_rows test rows) (rw on at h) in
      ((λ e. p), select_rows-All P test rows rest)
  | inr off ↦ ((λ e. absurd (cc)), select_rows-All P test rows (rw off at h))
]

-- What a rollback may go back to: a live row of the same application, and of the same environment
-- if that is given, that is a candidate.
abbrev pub eligible : Release → Release → Bool
eligible release x =
    selects release.application_id release.environment_id x && is_candidate release.id x

selected-Newest :
    (release : Release) (rows : List Release) (o : Option Release)
    → Newest
        (is_candidate release.id)
        (select_rows (selects release.application_id release.environment_id) rows)
        o
    → Newest (eligible release) rows o
selected-Newest release rows none h =
    All-mono _ (λ (x : Release). eligible release x ≡ false) (λ x k. ground arith) rows
      (select_rows-All (λ (x : Release). is_candidate release.id x ≡ false)
        (selects release.application_id release.environment_id) rows h)
selected-Newest release rows (some r) (m, on, h) =
    let (k, chosen) =
      select_rows-Memᴰ (selects release.application_id release.environment_id) r rows m in
    (
      k,
      rw (chosen, on) refl,
      All-mono _ (λ (x : Release). eligible release x ≡ true → x.created_at ≤ r.created_at)
          (λ x f e. f (ground arith) (ground arith)) rows
          (select_rows-All
            (λ (x : Release). is_candidate release.id x ≡ true → x.created_at ≤ r.created_at)
            (selects release.application_id release.environment_id) rows h),
    )

-- When the database answers, a rollback goes back to the newest eligible row of all rows, and is
-- refused exactly where there is none.
pub rollback_target-Newest :
    (release : Release) (w : World)
    → w.faults ≡ []
    → (o : Option Release) × Newest (eligible release) w.rows o
      × (select_rollback_target release w ≡ or_no_target o w)
unfolding select_rollback_target list list_now
rollback_target-Newest release w calm =
    let chosen = selects release.application_id release.environment_id in
    let o = newest (is_candidate release.id) (select_rows chosen w.rows) in
    (
      o,
      selected-Newest release w.rows o
          (newest-Newest (is_candidate release.id) (select_rows chosen w.rows)),
      ap (λ m. and_then m (λ items. or_no_target (newest (is_candidate release.id) items)))
          (faulty_calm (list_now chosen) w calm),
    )
