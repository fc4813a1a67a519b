-- ===== src/Service/Terminal/Kept.antt =====
-- Postconditions of the service's monad for a property of the world that every step keeps.
use devflow_service.Base.{
  Bool, List, Option, [], false, if◌then◌else◌, none, refl, some, true, ◌∷◌, ◌≡◌,
}
use devflow_service.Release.Types.{Release}
use devflow_service.Service.World.{
  M, Result, ServiceError, World, and_then, err, faulty, faulty_on, ok,
}

abbrev pub Keeps {ℓ} : {A : Type ℓ} → (World → Type 0) → (A → Type 0) → Result A × World → Type 0
Keeps P Q (ok a, w) = P w × Q a
Keeps P Q (err e, w) = P w

module _ (P : World → Type 0) where
  pub Keeps-bind {ℓ κ} :
      {A : Type ℓ} {B : Type κ} (Q : A → Type 0) (R : B → Type 0) (m : Result A × World)
      (f : A → M B)
      → Keeps P Q m
      → ((a : A) → Q a → (w : World) → P w → Keeps P R (f a w))
      → Keeps P R (and_then m f)
  Keeps-bind Q R (ok a, w) f (h, q) k = k a q w h
  Keeps-bind Q R (err e, w) f h k = h

  -- The property in the world that a call leaves, whatever it answers.
  pub Keeps-state {ℓ} : {A : Type ℓ} (Q : A → Type 0) (m : Result A × World) → Keeps P Q m → P m.1
  Keeps-state Q (ok a, w) h = h.0
  Keeps-state Q (err e, w) h = h

  Keeps-if {ℓ} :
      {A : Type ℓ} (Q : A → Type 0) (b : Bool) (m n : M A) (w : World)
      → (b ≡ true → Keeps P Q (m w))
      → (b ≡ false → Keeps P Q (n w))
      → Keeps P Q ((if b then m else n) w)
  Keeps-if Q true m n w h k = h refl
  Keeps-if Q false m n w h k = k refl

-- The property does not read the faults, so a fault does not touch it.
module _ (P : World → Type 0)
    (free : (w : World) (faults : List (Option ServiceError))
      → P w
      → P (record w { faults = faults })) where
  faulty_on-Keeps {ℓ} :
      {A : Type ℓ} (Q : A → Type 0) (m : M A) (faults : List (Option ServiceError)) (w : World)
      → ((w' : World) → P w' → Keeps P Q (m w'))
      → P w
      → Keeps P Q (faulty_on faults m w)
  faulty_on-Keeps Q m [] w keep h = keep w h
  faulty_on-Keeps Q m (none ∷ rest) w keep h = keep (record w { faults = rest }) (free w rest h)
  faulty_on-Keeps Q m (some e ∷ rest) w keep h = free w rest h

  pub statement-Keeps {ℓ} :
      {A : Type ℓ} (Q : A → Type 0) (m : M A) (w : World)
      → ((w' : World) → P w' → Keeps P Q (m w'))
      → P w
      → Keeps P Q (faulty m w)
  unfolding faulty
  statement-Keeps Q m w keep h = faulty_on-Keeps Q m w.faults w keep h

-- For a property of the rows alone.
pub faulty-Keeps {ℓ} :
    (P : List Release → Type 0) {A : Type ℓ} (Q : A → Type 0) (m : M A) (w : World)
    → ((w' : World) → P w'.rows → Keeps (λ v. P v.rows) Q (m w'))
    → P w.rows
    → Keeps (λ v. P v.rows) Q (faulty m w)
faulty-Keeps P Q m w keep h = statement-Keeps (λ v. P v.rows) (λ w' faults k. k) Q m w keep h
