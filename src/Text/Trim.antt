-- ===== src/Text/Trim.antt =====
-- What trimming leaves: a piece of the text whose ends are not cut characters.
use devflow_service.Base.{
  All, Bool, Bool-cases, [], arith, false, if◌then◌else◌, inl, inr, length, refl, true, ℕ, ◌&&◌,
  ◌∷◌, ◌≡◌, ◌≤◌,
}
use devflow_service.Text.{Text, is_empty, is_space, trim, trim_left, trim_right, trim_space}

module _ (cut : ℕ → Bool) where
  -- The first character is no cut character.
  abbrev pub Starts : Text → Type 0
  Starts [] = Unit
  Starts (c ∷ s) = cut c ≡ false

  -- The last character is no cut character.
  abbrev pub Ends : Text → Type 0
  Ends [] = Unit
  Ends (c ∷ []) = cut c ≡ false
  Ends (c ∷ d ∷ s) = Ends (d ∷ s)

  trim_left-Starts : (s : Text) → Starts (trim_left cut s)
  unfolding trim_left
  trim_left-Starts [] = tt
  trim_left-Starts (c ∷ s) = elim (Bool-cases (cut c)) [
    | inl e ↦ rw e (trim_left-Starts s)
    | inr e ↦ rw e e
  ]

  trim_right-Starts : (s : Text) → Starts s → Starts (trim_right cut s)
  unfolding trim_right
  trim_right-Starts [] h = tt
  trim_right-Starts (c ∷ s) h = rw h (h2 (is_empty (trim_right cut s)))
    where
      h2 : (b : Bool) → Starts (if b && false then [] else c ∷ trim_right cut s)
      h2 true = h
      h2 false = h

  trim_right_step : (c : ℕ) (r : Text) → Ends r → Ends (if is_empty r && cut c then [] else c ∷ r)
  unfolding is_empty
  trim_right_step c [] h = elim (Bool-cases (cut c)) [ inl e ↦ rw e tt | inr e ↦ rw e e ]
  trim_right_step c (d ∷ r) h = h

  trim_right-Ends : (s : Text) → Ends (trim_right cut s)
  unfolding trim_right
  trim_right-Ends [] = tt
  trim_right-Ends (c ∷ s) = trim_right_step c (trim_right cut s) (trim_right-Ends s)

  pub trim-Starts : (s : Text) → Starts (trim cut s)
  unfolding trim
  trim-Starts s = trim_right-Starts (trim_left cut s) (trim_left-Starts s)

  pub trim-Ends : (s : Text) → Ends (trim cut s)
  unfolding trim
  trim-Ends s = trim_right-Ends (trim_left cut s)

  -- A text with good ends is left as it is.
  trim_left_fixed : (s : Text) → Starts s → trim_left cut s ≡ s
  unfolding trim_left
  trim_left_fixed [] h = refl
  trim_left_fixed (c ∷ s) h = rw h

  trim_right_fixed : (s : Text) → Ends s → trim_right cut s ≡ s
  unfolding trim_right is_empty
  trim_right_fixed [] h = refl
  trim_right_fixed (c ∷ []) h = rw h
  trim_right_fixed (c ∷ d ∷ s) h = rw (trim_right_fixed (d ∷ s) h)

  pub trim_fixed : (s : Text) → Starts s → Ends s → trim cut s ≡ s
  unfolding trim
  trim_fixed s h k = rw (trim_left_fixed s h) (trim_right_fixed s k)

  -- What holds of every character still does, and nothing is longer.
  module _ (P : ℕ → Type 0) where
    trim_left-All : (s : Text) → All P s → All P (trim_left cut s)
    unfolding trim_left
    trim_left-All [] h = tt
    trim_left-All (c ∷ s) (p, h) = elim (Bool-cases (cut c)) [
      | inl e ↦ rw e (trim_left-All s h)
      | inr e ↦ rw e (p, h)
    ]

    trim_right-All : (s : Text) → All P s → All P (trim_right cut s)
    unfolding trim_right
    trim_right-All [] h = tt
    trim_right-All (c ∷ s) (p, h) = elim (Bool-cases (is_empty (trim_right cut s) && cut c)) [
      | inl e ↦ rw e tt
      | inr e ↦ rw e (p, trim_right-All s h)
    ]

    pub trim-All : (s : Text) → All P s → All P (trim cut s)
    unfolding trim
    trim-All s h = trim_right-All (trim_left cut s) (trim_left-All s h)

  length-trim_left : (s : Text) → length (trim_left cut s) ≤ length s
  unfolding trim_left
  length-trim_left [] = omega arith
  length-trim_left (c ∷ s) = ground (arith, length-trim_left s)

  length-trim_right : (s : Text) → length (trim_right cut s) ≤ length s
  unfolding trim_right
  length-trim_right [] = omega arith
  length-trim_right (c ∷ s) = ground (arith, length-trim_right s)

  pub length-trim-le : (s : Text) → length (trim cut s) ≤ length s
  unfolding trim
  length-trim-le s = omega (arith, length-trim_left s, length-trim_right (trim_left cut s))

-- `strings.TrimSpace` a second time changes nothing.
pub trim_space_idem : (s : Text) → trim_space (trim_space s) ≡ trim_space s
unfolding trim_space
trim_space_idem s =
    trim_fixed is_space (trim_space s) (trim-Starts is_space s) (trim-Ends is_space s)
