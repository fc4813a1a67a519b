-- ===== src/Base/Sorting.antt =====
-- `slices.SortFunc`, as insertion sort. The order of items that compare equal, which Go leaves
-- open, is here the order that they came in.
use mathlib.Core.Path.{◌≡◌}
use mathlib.Core.Bool.{Bool, true}
use mathlib.Core.List.{List, [], ◌∷◌}
use devflow_service.Base.Tests.{if◌then◌else◌}
use devflow_service.Base.Lists.{All}

-- `le a b` holds where the comparison of `a` with `b` gives no positive number.
module _ {A : Type 0} (le : A → A → Bool) where
  unfoldable insert_by : A → List A → List A
  insert_by a [] = a ∷ []
  insert_by a (b ∷ xs) = let rest = insert_by a xs in if le a b then a ∷ b ∷ xs else b ∷ rest

  unfoldable pub sort_by : List A → List A
  unfolding insert_by
  sort_by [] = []
  sort_by (a ∷ xs) = insert_by a (sort_by xs)

  abbrev pub IsSorted : List A → Type 0
  IsSorted [] = Unit
  IsSorted (a ∷ xs) = All (λ b. le a b ≡ true) xs × IsSorted xs
