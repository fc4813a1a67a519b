-- ===== src/Service/World.antt =====
-- The state that the release service works on, and its monad of state and errors.
use devflow_service.Base.{List, Option, [], none, refl, some, ◌∷◌, ◌≡◌}
use devflow_service.Intent.Types.{Intent}
use devflow_service.Manifest.Types.{Manifest}
use devflow_service.Release.Types.{Release}
use devflow_service.Text.{Text}

-- `rows` is the table `releases`, `intents` the table `execution_intents`, `manifests` the table
-- `manifests`. `faults` lists what befalls the coming statements on them: `none` for one that
-- reaches the database, `some e` for one that fails with `e` and changes nothing; after the list
-- every statement succeeds. One operation reads one instant, its argument `now`.
pub data ServiceError : Type 0 where
  no_rows : ServiceError
  store_failed : Text → ServiceError
  unknown_step no_control_state rollback_not_implemented : ServiceError
  operation_rejected : Text → ServiceError
  rollback_not_pending no_rollback_target : ServiceError
  invalid_argument : Text → ServiceError
  manifest_not_found manifest_not_available : ServiceError

pub data Result {ℓ} (A : Type ℓ) : Type ℓ where
  ok : A → Result A
  err : ServiceError → Result A

pub record World : Type 0 where
  pub rows : List Release
  pub intents : List Intent
  pub manifests : List Manifest
  pub faults : List (Option ServiceError)

abbrev pub M {ℓ} : Type ℓ → Type ℓ
M A = World → Result A × World

abbrev pub and_then {ℓ κ} :
    {A : Type ℓ} {B : Type κ} → Result A × World → (A → M B) → Result B × World
and_then (ok a, w) f = f a w
and_then (err e, w) f = (err e, w)

infixl 5 ◌>>=◌ ◌>>◌
abbrev pub ◌>>=◌ {ℓ κ} : {A : Type ℓ} {B : Type κ} → M A → (A → M B) → M B
◌>>=◌ m f w = and_then (m w) f

abbrev pub ◌>>◌ {ℓ} : {B : Type ℓ} → M (Unit {0}) → M B → M B
m >> k = m >>= λ _. k

abbrev pub return {ℓ} : {A : Type ℓ} → A → M A
return a w = (ok a, w)

abbrev pub done : M (Unit {0})
done = return tt

abbrev pub fail {ℓ} : {A : Type ℓ} → ServiceError → M A
fail e w = (err e, w)

-- A statement of the store, under the next fault.
abbrev pub faulty_on {ℓ} : {A : Type ℓ} → List (Option ServiceError) → M A → M A
faulty_on [] m w = m w
faulty_on (none ∷ rest) m w = m (record w { faults = rest })
faulty_on (some e ∷ rest) m w = (err e, record w { faults = rest })

unfoldable pub faulty {ℓ} : {A : Type ℓ} → M A → M A
faulty m w = faulty_on w.faults m w

faulty_on-nil {ℓ} :
    {A : Type ℓ} (faults : List (Option ServiceError)) (m : M A) (w : World)
    → faults ≡ []
    → faulty_on faults m w ≡ m w
faulty_on-nil [] m w e = refl
faulty_on-nil (x ∷ rest) m w e = cc

-- Without faults to come, a statement reaches the database.
pub faulty_calm {ℓ} : {A : Type ℓ} (m : M A) (w : World) → w.faults ≡ [] → faulty m w ≡ m w
unfolding faulty
faulty_calm m w e = faulty_on-nil w.faults m w e
