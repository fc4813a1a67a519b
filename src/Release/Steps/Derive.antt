-- ===== src/Release/Steps/Derive.antt =====
-- What DeriveReleaseStatusFromSteps of internal/release/domain/release.go computes.
use mathlib.Core.List.{Perm, Permᴰ}
use mathlib.Core.List.Permᴰ
use mathlib.Core.Logic.{∥∥₁_elim}
use mathlib.Core.HLevel.{hedberg}
use devflow_service.Base.{
  Bool, Bool-cases, List, [], arith, false, if◌then◌else◌, inl, inr, refl, sym, true, ◌&&◌, ◌||◌,
  ◌∙◌, ◌∷◌, ◌≡◌, ◌≢◌, ◌⊎◌,
}
use devflow_service.Release.Steps.{
  Tally, default_to_pending, derive_release_status_from_steps, is_release_terminal_status,
  tally_step, tally_steps,
}
use devflow_service.Release.Types.{
  ReleaseStatus, ReleaseStatus-discrete, ReleaseStep, StepStatus, failed, release_rollback,
  rolled_back, running, succeeded,
}
use devflow_service.Text.{Text, text_eq}

abbrev pub is_failed : StepStatus → Bool
is_failed failed = true
is_failed _ = false

abbrev is_succeeded : StepStatus → Bool
is_succeeded succeeded = true
is_succeeded _ = false

abbrev is_started : StepStatus → Bool
is_started succeeded = true
is_started running = true
is_started _ = false

module _ (test : StepStatus → Bool) where
  abbrev pub some_step : List ReleaseStep → Bool
  some_step [] = false
  some_step (step ∷ steps) = test step.status || some_step steps

  abbrev every_step : List ReleaseStep → Bool
  every_step [] = true
  every_step (step ∷ steps) = test step.status && every_step steps

-- The three questions that the flags of the loop answer, when no step has failed.
abbrev pub Summary : Text → ReleaseStatus → List ReleaseStep → ReleaseStatus
Summary release_action current steps =
    if some_step is_failed steps
    then failed
    else if every_step is_succeeded steps
    then (if text_eq release_action release_rollback then rolled_back else succeeded)
    else if some_step is_started steps
    then running
    else default_to_pending current

tally_one :
    (t : Tally) (s : StepStatus)
    → ((tally_step t s).any_failed ≡ (t.any_failed || is_failed s))
      × ((tally_step t s).all_succeeded ≡ (t.all_succeeded && is_succeeded s))
      × ((tally_step t s).any_started ≡ (t.any_started || is_started s))
unfolding tally_step
tally_one t failed = ground arith
tally_one t _ = ground arith

tally_lem :
    (t : Tally) (steps : List ReleaseStep)
    → ((tally_steps t steps).any_failed ≡ (t.any_failed || some_step is_failed steps))
      × ((tally_steps t steps).all_succeeded ≡ (t.all_succeeded && every_step is_succeeded steps))
      × ((tally_steps t steps).any_started ≡ (t.any_started || some_step is_started steps))
unfolding tally_steps
tally_lem t [] = ground arith
tally_lem t (step ∷ steps) =
    ground (arith, tally_one t step.status, tally_lem (tally_step t step.status) steps)

-- Until the release is terminal, the derived status of a non-empty list of steps is the summary:
-- failed if any step failed, else a success if every step succeeded (rolled back for a rollback),
-- else running if any step started, else the status that it had, with pending for an empty one.
pub derive-Summary :
    (release_action : Text) (current : ReleaseStatus) (steps : List ReleaseStep)
    → is_release_terminal_status current ≡ false
    → steps ≢ []
    → derive_release_status_from_steps release_action current steps
      ≡ Summary release_action current steps
unfolding derive_release_status_from_steps
derive-Summary release_action current [] live filled = absurd (filled refl)
derive-Summary release_action current (step ∷ steps) live filled = ground (
  arith,
  tally_lem (record { all_succeeded = true; any_failed = false; any_started = false })
      (step ∷ steps),
)

module _ (test : StepStatus → Bool) where
  swap_tests :
      (a b a' b' : ReleaseStep) (x : Bool)
      → a ≡ b'
      → b ≡ a'
      → (test a.status || (test b.status || x)) ≡ (test a'.status || (test b'.status || x))
  swap_tests a b a' b' x p q = rw (p, q) (ground arith)

  swap_all :
      (a b a' b' : ReleaseStep) (x : Bool)
      → a ≡ b'
      → b ≡ a'
      → (test a.status && (test b.status && x)) ≡ (test a'.status && (test b'.status && x))
  swap_all a b a' b' x p q = rw (p, q) (ground arith)

  some_step-perm : {xs ys : List ReleaseStep} → Permᴰ xs ys → some_step test xs ≡ some_step test ys
  some_step-perm Permᴰ.nil = refl
  some_step-perm (Permᴰ.cons {a} {b} {l₁} {l₂} e p) = rw (e, some_step-perm p)
  some_step-perm (Permᴰ.swap {a} {b} {a'} {b'} {l} p q) =
      swap_tests a b a' b' (some_step test l) p q
  some_step-perm (Permᴰ.trans p q) = some_step-perm p ∙ some_step-perm q

  every_step-perm :
      {xs ys : List ReleaseStep} → Permᴰ xs ys → every_step test xs ≡ every_step test ys
  every_step-perm Permᴰ.nil = refl
  every_step-perm (Permᴰ.cons {a} {b} {l₁} {l₂} e p) = rw (e, every_step-perm p)
  every_step-perm (Permᴰ.swap {a} {b} {a'} {b'} {l} p q) =
      swap_all a b a' b' (every_step test l) p q
  every_step-perm (Permᴰ.trans p q) = every_step-perm p ∙ every_step-perm q

Summary-perm :
    (release_action : Text) (current : ReleaseStatus) {xs ys : List ReleaseStep}
    → Permᴰ xs ys
    → Summary release_action current xs ≡ Summary release_action current ys
Summary-perm release_action current p =
    rw (some_step-perm is_failed p, every_step-perm is_succeeded p, some_step-perm is_started p)

nil-perm : {xs ys : List ReleaseStep} → Permᴰ xs ys → xs ≡ [] → ys ≡ []
nil-perm Permᴰ.nil e = refl
nil-perm (Permᴰ.cons e p) h = cc
nil-perm (Permᴰ.swap p q) h = cc
nil-perm (Permᴰ.trans p q) h = nil-perm q (nil-perm p h)

nil-or_not : (xs : List ReleaseStep) → (xs ≡ []) ⊎ (xs ≢ [])
nil-or_not [] = inl refl
nil-or_not (x ∷ xs) = inr (λ e. cc)

derive-permuted_steps :
    (release_action : Text) (current : ReleaseStatus) {xs ys : List ReleaseStep}
    → Permᴰ xs ys
    → is_release_terminal_status current ≡ false
    → derive_release_status_from_steps release_action current xs
      ≡ derive_release_status_from_steps release_action current ys
derive-permuted_steps release_action current {xs} {ys} p live = elim (nil-or_not ys) [
  | inl e ↦ rw (e, nil-perm (Permᴰ.symm p) e)
  | inr filled ↦
      derive-Summary release_action current xs live (λ e. filled (nil-perm p e))
      ∙ Summary-perm release_action current p
      ∙ sym (derive-Summary release_action current ys live filled)
]

-- The derived status does not depend on the order of the steps.
pub derive-permuted :
    (release_action : Text) (current : ReleaseStatus) {xs ys : List ReleaseStep}
    → Perm xs ys
    → derive_release_status_from_steps release_action current xs
      ≡ derive_release_status_from_steps release_action current ys
unfolding derive_release_status_from_steps
derive-permuted release_action current {xs} {ys} p =
    ∥∥₁_elim p (hedberg ReleaseStatus-discrete _ _) λ d.
      elim (Bool-cases (is_release_terminal_status current)) [
        | inl t ↦ rw t
        | inr live ↦ derive-permuted_steps release_action current d live
      ]
