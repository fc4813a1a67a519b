-- ===== src/Text/Laws.antt =====
-- Equality of texts, and the laws of the character maps.
use devflow_service.Base.{
  All, Bool-cases, Key, [], any, arith, false, inl, inr, refl, true, ℕ, ◌==◌, ◌↔◌, ◌∷◌, ◌≡◌, ◌≢◌,
}
use devflow_service.Text.{Text, is_empty, lower_rune, text_eq}

text_eq_sound : (s t : Text) → text_eq s t ≡ true → s ≡ t
unfolding text_eq
text_eq_sound [] [] h = refl
text_eq_sound [] (b ∷ t) h = cc
text_eq_sound (a ∷ s) [] h = cc
text_eq_sound (a ∷ s) (b ∷ t) h = ground (arith, text_eq_sound s t)

pub text_eq_refl : (s : Text) → text_eq s s ≡ true
unfolding text_eq
text_eq_refl [] = refl
text_eq_refl (a ∷ s) = ground (arith, text_eq_refl s)

-- The test on texts decides equality.
pub text_eq_iff : (s t : Text) → (text_eq s t ≡ true) ↔ (s ≡ t)
text_eq_iff s t = (text_eq_sound s t, λ e. rw e (text_eq_refl t))

pub lower_rune_idem : (c : ℕ) → lower_rune (lower_rune c) ≡ lower_rune c
unfolding lower_rune
lower_rune_idem c = ground arith

-- A text that lacks a character differs from every text that has it.
pub text_eq_of_missing :
    (c : ℕ) (s t : Text) → All (λ a. a ≢ c) s → any (λ b. b == c) t ≡ true → text_eq s t ≡ false
unfolding text_eq
text_eq_of_missing c [] [] h k = cc
text_eq_of_missing c [] (b ∷ t) h k = refl
text_eq_of_missing c (a ∷ s) [] h k = refl
text_eq_of_missing c (a ∷ s) (b ∷ t) (p, h) k = ground (arith, text_eq_of_missing c s t h)

text_eq_nil : (s : Text) → text_eq s [] ≡ is_empty s
unfolding text_eq is_empty
text_eq_nil [] = refl
text_eq_nil (c ∷ s) = refl

pub text_eq_sym : (s t : Text) → text_eq s t ≡ text_eq t s
text_eq_sym s t = elim (Bool-cases (text_eq s t)) [
  | inl e ↦ rw ((text_eq_iff s t).0 e) refl
  | inr e ↦ elim (Bool-cases (text_eq t s)) [ inl k ↦ rw ((text_eq_iff t s).0 k) refl | inr k ↦ cc ]
]

instance abbrev pub Text-Key : Key Text
Text-Key = record { same = text_eq; same_iff = text_eq_iff }
