-- ===== src/Release/Steps/Keys/Idempotent.antt =====
-- normalizeReleaseStepKey applied to a key that it made.
use mathlib.Core.List.{tail}
use devflow_service.Base.{
  All, All-map, All-mono, All-universal, Bool-cases, List, Option, [], any, arith, false, inl, inr,
  map, map_fixed, none, refl, some, true, ℕ, ◌==◌, ◌∷◌, ◌≡◌, ◌≢◌,
}
use devflow_service.Release.Steps.Keys.{
  case_of, dashed_key, key_of_title, normalize_release_step_key, normalize_release_step_key_lem,
  or_underscored, titles,
}
use devflow_service.Text.{Text, is_space, lower_rune, replace_all, replace_rune, text_eq, trim}
use devflow_service.Text.Laws.{lower_rune_idem, text_eq_of_missing}
use devflow_service.Text.Trim.{Ends, Starts, trim-All, trim-Ends, trim-Starts, trim_fixed}

abbrev Clean : ℕ → Type 0
Clean c = (lower_rune c ≡ c) × (c ≢ b'-') × (c ≢ b' ')

abbrev Lowered : ℕ → Type 0
Lowered c = lower_rune c ≡ c

abbrev Dashless : ℕ → Type 0
Dashless c = (lower_rune c ≡ c) × (c ≢ b'-')

undash : (c : ℕ) → Lowered c → Dashless (replace_rune b'-' b'_' c)
unfolding lower_rune
undash c h = ground arith

unspace : (c : ℕ) → Dashless c → Clean (replace_rune b' ' b'_' c)
unfolding lower_rune
unspace c h = ground arith

module _ (old new : ℕ)
    (keeps : (c : ℕ) → is_space c ≡ false → is_space (replace_rune old new c) ≡ false) where
  replace-Starts : (s : Text) → Starts is_space s → Starts is_space (map (replace_rune old new) s)
  replace-Starts [] h = tt
  replace-Starts (c ∷ s) h = keeps c h

  replace-Ends : (s : Text) → Ends is_space s → Ends is_space (map (replace_rune old new) s)
  replace-Ends [] h = tt
  replace-Ends (c ∷ []) h = keeps c h
  replace-Ends (c ∷ d ∷ s) h = replace-Ends (d ∷ s) h

keeps_dash : (c : ℕ) → is_space c ≡ false → is_space (replace_rune b'-' b'_' c) ≡ false
unfolding is_space
keeps_dash c h = elim (Bool-cases (c == b'-')) [ inl e ↦ rw e refl | inr e ↦ rw e h ]

keeps_space : (c : ℕ) → is_space c ≡ false → is_space (replace_rune b' ' b'_' c) ≡ false
unfolding is_space
keeps_space c h = elim (Bool-cases (c == b' ')) [ inl e ↦ rw e refl | inr e ↦ rw e h ]

dashed_key_fixed : (s : Text) → All Clean s → Starts is_space s → Ends is_space s → dashed_key s ≡ s
unfolding dashed_key
dashed_key_fixed s h st en = rw (
  map_fixed lower_rune s (All-mono Clean _ (λ c k. k.0) s h),
  trim_fixed is_space s st en,
  map_fixed (replace_rune b'-' b'_') s (All-mono Clean _ (λ c k. keeps_other c k) s h),
)
  where
    keeps_other : (c : ℕ) → Clean c → replace_rune b'-' b'_' c ≡ c
    keeps_other c k = ground arith

-- No title of the switch is clean: but for the empty one, each holds a space.
case_of-missing :
    (cases : List (Text × Text)) (s : Text)
    → All (λ c. c ≢ b' ') s
    → All (λ (case : Text × Text). any (λ b. b == b' ') case.0 ≡ true) cases
    → case_of cases s ≡ none
unfolding case_of
case_of-missing [] s h k = refl
case_of-missing ((title, key) ∷ cases) s h (p, k) =
    rw (text_eq_of_missing b' ' s title h p) (case_of-missing cases s h k)

abbrev other_titles : List (Text × Text)
other_titles = tail titles

key_of_title_clean : (c : ℕ) (s : Text) → All (λ a. a ≢ b' ') (c ∷ s) → key_of_title (c ∷ s) ≡ none
unfolding key_of_title case_of text_eq
key_of_title_clean c s h =
    case_of-missing other_titles (c ∷ s) h
      (refl, (refl, (refl, (refl, (refl, (refl, (refl, tt)))))))

underscores_fixed : (s : Text) → All Clean s → replace_all b' ' b'_' s ≡ s
unfolding replace_all
underscores_fixed s h = map_fixed (replace_rune b' ' b'_') s (All-mono Clean _ keeps_other s h)
  where
    keeps_other : (c : ℕ) → Clean c → replace_rune b' ' b'_' c ≡ c
    keeps_other c k = ground arith

-- A clean text with good ends is its own key.
Clean-key :
    (s : Text)
    → All Clean s
    → Starts is_space s
    → Ends is_space s
    → normalize_release_step_key s ≡ s
Clean-key [] h st en = unfold normalize_release_step_key in refl
Clean-key (c ∷ s) h st en =
    rw
      (
        normalize_release_step_key_lem (c ∷ s),
        dashed_key_fixed (c ∷ s) h st en,
        key_of_title_clean c s (All-mono Clean _ (λ a k. k.2) (c ∷ s) h),
      )
      (underscores_fixed (c ∷ s) h)

-- A value of the switch is its own key.
abbrev IsKey : Option Text → Type 0
IsKey none = Unit
IsKey (some key) = normalize_release_step_key key ≡ key

case_of-IsKey :
    (cases : List (Text × Text)) (s : Text)
    → All (λ (case : Text × Text). normalize_release_step_key case.1 ≡ case.1) cases
    → IsKey (case_of cases s)
unfolding case_of
case_of-IsKey [] s h = tt
case_of-IsKey ((title, key) ∷ cases) s (p, h) = elim (Bool-cases (text_eq s title)) [
  | inl e ↦ rw e p
  | inr e ↦ rw e (case_of-IsKey cases s h)
]

title-IsKey : (s : Text) → IsKey (key_of_title s)
unfolding key_of_title normalize_release_step_key
title-IsKey s =
    case_of-IsKey titles s (refl, (refl, (refl, (refl, (refl, (refl, (refl, (refl, tt))))))))

-- What `dashed_key` makes has no upper case, no dash, and no space at its ends.
dashed_key-Dashless : (value : Text) → All Dashless (dashed_key value)
unfolding dashed_key
dashed_key-Dashless value = All-map Lowered Dashless (replace_rune b'-' b'_') undash _ (
    trim-All is_space Lowered (map lower_rune value) (
      All-map (λ c. Unit {0}) Lowered lower_rune (λ c _. lower_rune_idem c) value
        (All-universal (λ c. Unit {0}) (λ c. tt) value)))

dashed_key-Starts : (value : Text) → Starts is_space (dashed_key value)
unfolding dashed_key
dashed_key-Starts value =
    replace-Starts b'-' b'_' keeps_dash (trim is_space (map lower_rune value))
      (trim-Starts is_space (map lower_rune value))

dashed_key-Ends : (value : Text) → Ends is_space (dashed_key value)
unfolding dashed_key
dashed_key-Ends value =
    replace-Ends b'-' b'_' keeps_dash (trim is_space (map lower_rune value))
      (trim-Ends is_space (map lower_rune value))

underscored_key :
    (s : Text)
    → All Dashless s
    → Starts is_space s
    → Ends is_space s
    → normalize_release_step_key (replace_all b' ' b'_' s) ≡ replace_all b' ' b'_' s
unfolding replace_all
underscored_key s h st en =
    Clean-key (map (replace_rune b' ' b'_') s)
      (All-map Dashless Clean (replace_rune b' ' b'_') unspace s h)
      (replace-Starts b' ' b'_' keeps_space s st) (replace-Ends b' ' b'_' keeps_space s en)

or_underscored_key :
    (o : Option Text) (s : Text)
    → IsKey o
    → normalize_release_step_key (replace_all b' ' b'_' s) ≡ replace_all b' ' b'_' s
    → normalize_release_step_key (or_underscored o s) ≡ or_underscored o s
or_underscored_key (some key) s h k = h
or_underscored_key none s h k = k

-- A normalised step key is its own normal form, so looking a step up by the code that the service
-- made and by the text that it came from finds the same step.
pub normalize_release_step_key_idem :
    (value : Text)
    → normalize_release_step_key (normalize_release_step_key value)
      ≡ normalize_release_step_key value
normalize_release_step_key_idem value = rw (normalize_release_step_key_lem value) (
    or_underscored_key (key_of_title (dashed_key value)) (dashed_key value)
      (title-IsKey (dashed_key value))
      (underscored_key (dashed_key value) (dashed_key-Dashless value) (dashed_key-Starts value)
        (dashed_key-Ends value)))
