-- ===== src/Service/Store/Rows.antt =====
-- Lookups after a write.
use mathlib.Core.Option
use devflow_service.Base.{List, [], arith, if◌then◌else◌, ℕ, ◌==◌, ◌∷◌, ◌≡◌}
use devflow_service.Release.Types.{Release}
use devflow_service.Service.Store.{lookup_row, set_row}

pub lookup-set_row :
    (j id : ℕ) (change : Release → Release) (rows : List Release)
    → ((row : Release) → (change row).id ≡ row.id)
    → lookup_row j (set_row id change rows)
      ≡ (if id == j then Option.map change (lookup_row j rows) else lookup_row j rows)
unfolding lookup_row set_row
lookup-set_row j id change [] keeps = ground arith
lookup-set_row j id change (row ∷ rows) keeps =
    ground (arith, keeps row, lookup-set_row j id change rows keeps)
