-- ===== src/Release/Steps/Canonical/Idempotent.antt =====
-- A normalised list of steps is its own normal form.
use devflow_service.Base.{
  Bool, List, Option, [], all, arith, false, map, none, not, refl, some, true, ◌&&◌, ◌∙◌, ◌∷◌, ◌≡◌,
}
use devflow_service.Release.Steps.{default_release_steps}
use devflow_service.Release.Steps.Canonical.{
  align_with, infer_from_steps, infer_release_type, normalize_release_steps, or_inferred, step_key,
}
use devflow_service.Release.Steps.Canonical.Laws.{
  aligned, filed_under, first_of_two-none, last_with_key, normalize_release_steps-aligned,
}
use devflow_service.Release.Steps.Keys.{normalize_release_step_key}
use devflow_service.Release.Types.{
  ReleaseStep, ReleaseType, canary, normal, release_strategy_to_type,
}
use devflow_service.Text.{Text, is_empty, text_eq}
use devflow_service.Text.Laws.{text_eq_iff, text_eq_refl, text_eq_sym}

abbrev own_key : ReleaseStep → Bool
own_key e = text_eq (normalize_release_step_key e.code) e.code && not (is_empty e.code)

abbrev distinct : List ReleaseStep → Bool
distinct [] = true
distinct (e ∷ es) = all (λ d. not (text_eq e.code d.code)) es && distinct es

default_steps-own_key :
    (t : ReleaseType) (release_action : Text)
    → all own_key (default_release_steps t release_action) ≡ true
unfolding default_release_steps normalize_release_step_key is_empty
default_steps-own_key canary release_action = refl
default_steps-own_key _ release_action = refl

default_steps-distinct :
    (t : ReleaseType) (release_action : Text)
    → distinct (default_release_steps t release_action) ≡ true
unfolding default_release_steps text_eq
default_steps-distinct canary release_action = refl
default_steps-distinct _ release_action = refl

infer-default :
    (t : ReleaseType) (release_action : Text)
    → infer_from_steps (default_release_steps t release_action) ≡ t
unfolding default_release_steps normalize_release_step_key infer_from_steps text_eq
infer-default canary release_action = refl
infer-default _ release_action = refl

-- The codes and names of the canonical steps, one by one.
abbrev Aligned : List ReleaseStep → List ReleaseStep → Type 0
Aligned [] [] = Unit
Aligned (e ∷ es) (x ∷ xs) = (x.code ≡ e.code) × (x.name ≡ e.name) × Aligned es xs
Aligned _ _ = ⊥

align-code : (e : ReleaseStep) (o : Option ReleaseStep) → (align_with e o).code ≡ e.code
align-code e none = refl
align-code e (some a) = refl

align-name : (e : ReleaseStep) (o : Option ReleaseStep) → (align_with e o).name ≡ e.name
align-name e none = refl
align-name e (some a) = refl

map-aligned-Aligned : (steps es : List ReleaseStep) → Aligned es (map (aligned steps) es)
map-aligned-Aligned steps [] = tt
map-aligned-Aligned steps (e ∷ es) = (
  align-code e (last_with_key e.code steps),
  align-name e (last_with_key e.code steps),
  map-aligned-Aligned steps es,
)

infer-Aligned :
    (es xs : List ReleaseStep) → Aligned es xs → infer_from_steps xs ≡ infer_from_steps es
unfolding infer_from_steps
infer-Aligned [] [] h = refl
infer-Aligned [] (x ∷ xs) h = absurd h
infer-Aligned (e ∷ es) [] h = absurd h
infer-Aligned (e ∷ es) (x ∷ xs) (p, q, h) = rw (p, infer-Aligned es xs h)

-- A step whose code is its own key is filed under its code alone.
step_key-own : (e x : ReleaseStep) → own_key e ≡ true → x.code ≡ e.code → step_key x ≡ e.code
unfolding step_key
step_key-own e x own p = ground (arith, p, text_eq_iff (normalize_release_step_key e.code) e.code)

filed_self :
    (e x : ReleaseStep) → own_key e ≡ true → x.code ≡ e.code → filed_under e.code x ≡ some x
filed_self e x own p = rw (step_key-own e x own p) (ground (arith, text_eq_refl e.code))

filed-other :
    (e x : ReleaseStep) (key : Text)
    → own_key e ≡ true
    → x.code ≡ e.code
    → text_eq e.code key ≡ false
    → filed_under key x ≡ none
filed-other e x key own p ne = rw (step_key-own e x own p, ne) (ground arith)

last-absent :
    (key : Text) (es xs : List ReleaseStep)
    → all own_key es ≡ true
    → all (λ d. not (text_eq key d.code)) es ≡ true
    → Aligned es xs
    → last_with_key key xs ≡ none
unfolding last_with_key
last-absent key [] [] o n h = refl
last-absent key [] (x ∷ xs) o n h = absurd h
last-absent key (e ∷ es) [] o n h = absurd h
last-absent key (e ∷ es) (x ∷ xs) o n (p, q, h) = rw (
  last-absent key es xs (ground arith) (ground arith) h,
  filed-other e x key (ground arith) p (ground (arith, text_eq_sym key e.code)),
)

-- A step that stands before does not change what is found for the other codes.
map-aligned-cons :
    (e x : ReleaseStep) (xs es : List ReleaseStep)
    → own_key e ≡ true
    → x.code ≡ e.code
    → all (λ d. not (text_eq e.code d.code)) es ≡ true
    → map (aligned (x ∷ xs)) es ≡ map (aligned xs) es
unfolding last_with_key
map-aligned-cons e x xs [] own p n = refl
map-aligned-cons e x xs (d ∷ es) own p n = rw (
  filed-other e x d.code own p (ground arith),
  first_of_two-none (last_with_key d.code xs),
  map-aligned-cons e x xs es own p (ground arith),
)

realign : (e x : ReleaseStep) → x.code ≡ e.code → x.name ≡ e.name → align_with e (some x) ≡ x
realign e x p q = ground arith

map-aligned_fixed :
    (es xs : List ReleaseStep)
    → all own_key es ≡ true
    → distinct es ≡ true
    → Aligned es xs
    → map (aligned xs) es ≡ xs
unfolding last_with_key
map-aligned_fixed [] [] o d h = refl
map-aligned_fixed [] (x ∷ xs) o d h = absurd h
map-aligned_fixed (e ∷ es) [] o d h = absurd h
map-aligned_fixed (e ∷ es) (x ∷ xs) o d (p, q, h) = cc (
  last-absent e.code es xs (ground arith) (ground arith) h,
  filed_self e x (ground arith) p,
  realign e x p q,
  map-aligned-cons e x xs es (ground arith) p (ground arith),
  map-aligned_fixed es xs (ground arith) (ground arith) h,
)

or_inferred_fixed :
    (t : ReleaseType) (release_action : Text) (steps xs : List ReleaseStep)
    → Aligned (default_release_steps (or_inferred t steps) release_action) xs
    → or_inferred t xs ≡ or_inferred t steps
or_inferred_fixed normal release_action steps xs h =
    infer-Aligned _ xs h ∙ infer-default (infer_from_steps steps) release_action
or_inferred_fixed _ release_action steps xs h = refl

infer-normalized :
    (strategy release_action : Text) (steps xs : List ReleaseStep)
    → Aligned (default_release_steps (infer_release_type strategy steps) release_action) xs
    → infer_release_type strategy xs ≡ infer_release_type strategy steps
unfolding infer_release_type
infer-normalized strategy release_action steps xs h =
    or_inferred_fixed (release_strategy_to_type strategy) release_action steps xs h

-- Normalising the steps of a release a second time changes nothing: what one load of the row makes
-- of them and stores is what every later load reads back.
pub normalize_release_steps_idem :
    (strategy release_action : Text) (steps : List ReleaseStep)
    → normalize_release_steps strategy release_action
        (normalize_release_steps strategy release_action steps)
      ≡ normalize_release_steps strategy release_action steps
normalize_release_steps_idem strategy release_action steps =
    let es = default_release_steps (infer_release_type strategy steps) release_action in
    let h = map-aligned-Aligned steps es in
    rw
      (
        normalize_release_steps-aligned strategy release_action steps,
        normalize_release_steps-aligned strategy release_action (map (aligned steps) es),
        infer-normalized strategy release_action steps (map (aligned steps) es) h,
      )
      (map-aligned_fixed es (map (aligned steps) es)
        (default_steps-own_key (infer_release_type strategy steps) release_action)
        (default_steps-distinct (infer_release_type strategy steps) release_action) h)
