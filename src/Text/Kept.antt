-- ===== src/Text/Kept.antt =====
-- What trimming keeps: the characters that are not cut, and what stands before a good end.
use devflow_service.Base.{
  Bool, Bool-cases, [], any, ap, arith, false, if◌then◌else◌, inl, inr, length, refl, suc, take,
  true, zero, ℕ, ◌&&◌, ◌++◌, ◌||◌, ◌∙◌, ◌∷◌, ◌≡◌, ◌≤◌,
}
use devflow_service.Text.{Text, is_empty, trim, trim_left, trim_right}
use devflow_service.Text.Trim.{Ends, Starts}

module _ (cut keep : ℕ → Bool) (apart : (c : ℕ) → cut c ≡ true → keep c ≡ false) where
  any-trim_left : (s : Text) → any keep (trim_left cut s) ≡ any keep s
  unfolding trim_left
  any-trim_left [] = refl
  any-trim_left (c ∷ s) = elim (Bool-cases (cut c)) [
    | inl e ↦ rw (e, apart c e) (any-trim_left s)
    | inr e ↦ rw e refl
  ]

  any_step :
      (c : ℕ) (s r : Text)
      → any keep r ≡ any keep s
      → any keep (if is_empty r && cut c then [] else c ∷ r) ≡ (keep c || any keep s)
  unfolding is_empty
  any_step c s [] h = elim (Bool-cases (cut c)) [
    | inl e ↦ rw (e, apart c e) h
    | inr e ↦ rw (e, ← h) refl
  ]
  any_step c s (d ∷ r) h = rw (← h) refl

  any-trim_right : (s : Text) → any keep (trim_right cut s) ≡ any keep s
  unfolding trim_right
  any-trim_right [] = refl
  any-trim_right (c ∷ s) = any_step c s (trim_right cut s) (any-trim_right s)

  pub any-trim : (s : Text) → any keep (trim cut s) ≡ any keep s
  unfolding trim
  any-trim s = any-trim_right (trim_left cut s) ∙ any-trim_left s

module _ (cut : ℕ → Bool) where
  trim_right-append :
      (c : ℕ) (s rest : Text)
      → Ends cut (c ∷ s)
      → trim_right cut (c ∷ (s ++ rest)) ≡ c ∷ (s ++ trim_right cut rest)
  unfolding trim_right is_empty
  trim_right-append c [] rest h = elim (Bool-cases (is_empty (trim_right cut rest))) [
    | inl e ↦ rw (e, h) refl
    | inr e ↦ rw e refl
  ]
  trim_right-append c (d ∷ s) rest h = rw (trim_right-append d s rest h) refl

  -- Trimming keeps a text with good ends that the whole begins with.
  pub trim-append :
      (s rest : Text)
      → is_empty s ≡ false
      → Starts cut s
      → Ends cut s
      → trim cut (s ++ rest) ≡ s ++ trim_right cut rest
  unfolding trim trim_left is_empty
  trim-append [] rest filled begins ends = cc
  trim-append (c ∷ s) rest filled begins ends = rw begins (trim_right-append c s rest ends)

-- The beginning of a text that is cut behind it.
pub take-append :
    (n : ℕ) (s rest : Text) → length s ≤ n → (later : Text) × (take n (s ++ rest) ≡ s ++ later)
take-append n [] rest le = (take n rest, refl)
take-append zero (c ∷ s) rest le = absurd (omega arith)
take-append (suc n) (c ∷ s) rest le =
    let (later, e) = take-append n s rest (omega (arith, le)) in (later, ap (λ t. c ∷ t) e)
