-- ===== src/Base/Maps.antt =====
-- Go maps as association lists, over keys with a test of equality.
use Prim.Native.Nat.{ℕ}
use mathlib.Core.Path.{◌≡◌, refl}
use mathlib.Core.Logic.{◌↔◌, inl, inr}
use mathlib.Core.Bool.{Bool, true, false}
use mathlib.Core.List.{List, [], ◌∷◌}
use mathlib.Core.Option.{Option, none, some}
use native.Mathlib.Omega.{arith}
use devflow_service.Base.Tests.{==_iff, Bool-cases, if◌then◌else◌, ◌==◌}

pub record Key (K : Type 0) : Type 0 where
  pub same : K → K → Bool
  pub same_iff : (a b : K) → (same a b ≡ true) ↔ (a ≡ b)

instance abbrev pub ℕ-Key : Key ℕ
ℕ-Key = record { same = ◌==◌; same_iff = ==_iff }

module _ {K : Type 0} ⦃o : Key K⦄ where
  pub same_refl : (k : K) → o.same k k ≡ true
  same_refl k = (o.same_iff k k).1 refl

  pub same_ne : (j k : K) → (¬ (j ≡ k)) → o.same j k ≡ false
  same_ne j k h = elim (Bool-cases (o.same j k)) [
    | inl e ↦ absurd (h ((o.same_iff j k).0 e))
    | inr e ↦ e
  ]

module _ {K V : Type 0} ⦃o : Key K⦄ where
  -- `m[k]`, with `none` for a missing key.
  unfoldable pub find : K → List (K × V) → Option V
  find k [] = none
  find k (e ∷ m) = if o.same e.0 k then some e.1 else find k m

  -- `delete(m, k)`.
  unfoldable pub erase : K → List (K × V) → List (K × V)
  erase k [] = []
  erase k (e ∷ m) = let rest = erase k m in if o.same e.0 k then rest else e ∷ rest

  -- `m[k] = v`.
  abbrev pub put : K → V → List (K × V) → List (K × V)
  put k v m = (k, v) ∷ erase k m

  pub find-erase :
      (j k : K) (m : List (K × V)) → find j (erase k m) ≡ (if o.same k j then none else find j m)
  unfolding find erase
  find-erase j k [] = ground arith
  find-erase j k (e ∷ m) =
      ground (arith, find-erase j k m, o.same_iff e.0 k, o.same_iff e.0 j, o.same_iff k j)

  pub find-put :
      (j k : K) (v : V) (m : List (K × V))
      → find j (put k v m) ≡ (if o.same k j then some v else find j m)
  unfolding find
  find-put j k v m = ground (arith, find-erase j k m)

  pub find-put_same :
      (j k : K) (v : V) (m : List (K × V)) → o.same k j ≡ true → find j (put k v m) ≡ some v
  find-put_same j k v m e = ground (arith, find-put j k v m)

  pub find-put_other :
      (j k : K) (v : V) (m : List (K × V)) → o.same k j ≡ false → find j (put k v m) ≡ find j m
  find-put_other j k v m e = ground (arith, find-put j k v m)

  pub find-erase_same : (j k : K) (m : List (K × V)) → o.same k j ≡ true → find j (erase k m) ≡ none
  find-erase_same j k m e = ground (arith, find-erase j k m)

  pub find-erase_other :
      (j k : K) (m : List (K × V)) → o.same k j ≡ false → find j (erase k m) ≡ find j m
  find-erase_other j k m e = ground (arith, find-erase j k m)
