-- ===== src/Release/Steps/Canonical/Laws.antt =====
-- normalizeReleaseSteps of internal/release/service/release.go: what it files under each code, and
-- that it is a normal form.
use devflow_service.Base.{
  List, Option, [], ap, arith, if◌then◌else◌, map, none, not, refl, some, ◌&&◌, ◌∙◌, ◌∷◌, ◌≡◌,
}
use devflow_service.Release.Steps.{default_release_steps}
use devflow_service.Release.Steps.Canonical.{
  align_steps, align_with, file_step, index_steps, infer_release_type, lookup_key,
  normalize_release_steps, step_key,
}
use devflow_service.Release.Types.{ReleaseStep}
use devflow_service.Text.{Text, is_empty, text_eq}

abbrev first_of_two {ℓ} : {A : Type ℓ} → Option A → Option A → Option A
first_of_two (some a) o = some a
first_of_two none o = o

abbrev pub filed_under : Text → ReleaseStep → Option ReleaseStep
filed_under key step =
    if not (is_empty (step_key step)) && text_eq (step_key step) key then some step else none

-- The last stored step whose key is `key`; a step with an empty key is not filed.
unfoldable pub last_with_key : Text → List ReleaseStep → Option ReleaseStep
last_with_key key [] = none
last_with_key key (step ∷ steps) = first_of_two (last_with_key key steps) (filed_under key step)

first_of_two_assoc :
    {A : Type 0} (a b c : Option A)
    → first_of_two a (first_of_two b c) ≡ first_of_two (first_of_two a b) c
first_of_two_assoc (some x) b c = refl
first_of_two_assoc none b c = refl

lookup-file :
    (key : Text) (step : ReleaseStep) (by_code : List (Text × ReleaseStep))
    → lookup_key key (file_step step by_code)
      ≡ first_of_two (filed_under key step) (lookup_key key by_code)
unfolding lookup_key
lookup-file key step by_code = ground arith

lookup-index :
    (key : Text) (by_code : List (Text × ReleaseStep)) (steps : List ReleaseStep)
    → lookup_key key (index_steps by_code steps)
      ≡ first_of_two (last_with_key key steps) (lookup_key key by_code)
unfolding index_steps last_with_key
lookup-index key by_code [] = refl
lookup-index key by_code (step ∷ steps) =
    lookup-index key (file_step step by_code) steps
    ∙ ap (first_of_two (last_with_key key steps)) (lookup-file key step by_code)
    ∙ first_of_two_assoc (last_with_key key steps) (filed_under key step) (lookup_key key by_code)

-- One step of the result.
abbrev pub aligned : List ReleaseStep → ReleaseStep → ReleaseStep
aligned steps expected = align_with expected (last_with_key expected.code steps)

pub first_of_two-none : {A : Type 0} (o : Option A) → first_of_two o none ≡ o
first_of_two-none (some a) = refl
first_of_two-none none = refl

lookup-index_nil :
    (key : Text) (steps : List ReleaseStep)
    → lookup_key key (index_steps [] steps) ≡ last_with_key key steps
unfolding lookup_key
lookup-index_nil key steps = lookup-index key [] steps ∙ first_of_two-none (last_with_key key steps)

align_steps-aligned :
    (steps canonical : List ReleaseStep)
    → align_steps (index_steps [] steps) canonical ≡ map (aligned steps) canonical
unfolding align_steps
align_steps-aligned steps [] = refl
align_steps-aligned steps (e ∷ canonical) =
    cc (lookup-index_nil e.code steps, align_steps-aligned steps canonical)

-- The result has one step for each canonical one: the last stored step with that key, under the
-- canonical code and name, and the fresh canonical step if there is none.
pub normalize_release_steps-aligned :
    (strategy release_action : Text) (steps : List ReleaseStep)
    → normalize_release_steps strategy release_action steps
      ≡ map
          (aligned steps)
          (default_release_steps (infer_release_type strategy steps) release_action)
unfolding normalize_release_steps
normalize_release_steps-aligned strategy release_action steps =
    align_steps-aligned steps
      (default_release_steps (infer_release_type strategy steps) release_action)
