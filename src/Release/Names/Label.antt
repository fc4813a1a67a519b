-- ===== src/Release/Names/Label.antt =====
-- The names that deriveArgoApplicationName of internal/release/service/release.go makes.
use devflow_service.Base.{
  All, All-append, All-mono, All-take, Bool, Bool-cases, [], arith, false, inl, inr, leb, leb→le,
  length, length-take-le, le→leb, map_fixed, refl, take, true, ℕ, ◌++◌, ◌∷◌, ◌≡◌, ◌≤◌,
}
use devflow_service.Release.Names.{
  derive_argo_application_name, is_dash, is_name_rune, join_name, or_text, replace_runs,
  sanitize_argo_application_name, trim_argo_application_name,
}
use devflow_service.Text.{
  Text, is_empty, is_space, lower_rune, replace_all, replace_rune, to_lower, trim, trim_space,
}
use devflow_service.Text.Trim.{
  Ends, Starts, length-trim-le, trim-All, trim-Ends, trim-Starts, trim_fixed,
}

-- A fit name: at most 63 lower case letters, digits and dashes, with no dash at either end. The
-- empty text is one; Kubernetes takes every other.
abbrev pub IsLabel : Text → Type 0
IsLabel s = All (λ c. is_name_rune c ≡ true) s × (length s ≤ 63) × Starts is_dash s × Ends is_dash s

pub replace_runs-All : (b : Bool) (s : Text) → All (λ c. is_name_rune c ≡ true) (replace_runs b s)
unfolding replace_runs
replace_runs-All b [] = tt
replace_runs-All b (c ∷ s) = elim (Bool-cases (is_name_rune c)) [
  | inl e ↦ rw e (e, replace_runs-All false s)
  | inr off ↦ elim (Bool-cases b) [
    | inl k ↦ rw (off, k) (replace_runs-All true s)
    | inr k ↦ rw (off, k) (refl, replace_runs-All true s)
  ]
]

trim-IsLabel :
    (s : Text) → All (λ c. is_name_rune c ≡ true) s → IsLabel (trim_argo_application_name s)
unfolding trim_argo_application_name
trim-IsLabel s h = elim (Bool-cases (leb (length (trim is_dash s)) 63)) [
  | inl le ↦ rw le (
    trim-All is_dash (λ c. is_name_rune c ≡ true) s h,
    leb→le _ _ le,
    trim-Starts is_dash s,
    trim-Ends is_dash s,
  )
  | inr gt ↦
      let cut = take 63 (trim is_dash s) in
      rw gt (
        trim-All is_dash (λ c. is_name_rune c ≡ true) cut
            (All-take (λ c. is_name_rune c ≡ true) 63 (trim is_dash s)
              (trim-All is_dash (λ c. is_name_rune c ≡ true) s h)),
        omega (arith, length-trim-le is_dash cut, length-take-le 63 (trim is_dash s)),
        trim-Starts is_dash cut,
        trim-Ends is_dash cut,
      )
]

pub sanitize-IsLabel : (s : Text) → IsLabel (sanitize_argo_application_name s)
unfolding sanitize_argo_application_name
sanitize-IsLabel s = elim (Bool-cases (is_empty (to_lower (trim_space s)))) [
  | inl e ↦ rw e (tt, omega arith, tt, tt)
  | inr off ↦
      let runs = replace_runs false (replace_all b'_' b'-' (to_lower (trim_space s))) in
      rw off (
        trim-IsLabel (trim is_dash runs) (
          trim-All is_dash (λ c. is_name_rune c ≡ true) runs
            (replace_runs-All false (replace_all b'_' b'-' (to_lower (trim_space s))))))
]

join-IsLabel : (base env : Text) → IsLabel base → IsLabel env → IsLabel (join_name base env)
join-IsLabel base env h k = elim (Bool-cases (is_empty base)) [
  | inl e ↦ rw e (tt, omega arith, tt, tt)
  | inr filled ↦ elim (Bool-cases (is_empty env)) [
    | inl e ↦ rw (filled, e) h
    | inr e ↦
        rw (filled, e)
          (trim-IsLabel (base ++ (b'-' ∷ env))
            (All-append (λ c. is_name_rune c ≡ true) base (b'-' ∷ env) h.0 (refl, k.0)))
  ]
]

or_text-IsLabel : (a b : Text) → IsLabel a → IsLabel b → IsLabel (or_text a b)
or_text-IsLabel a b h k = elim (Bool-cases (is_empty a)) [ inl e ↦ rw e k | inr e ↦ rw e h ]

-- The name of the Argo application is fit.
pub derive_argo_application_name-IsLabel :
    (app_name target_environment application_id environment_id : Text)
    → IsLabel
        (derive_argo_application_name app_name target_environment application_id environment_id)
unfolding derive_argo_application_name
derive_argo_application_name-IsLabel app_name target_environment application_id environment_id =
    join-IsLabel _ _ (sanitize-IsLabel (or_text (trim_space app_name) application_id)) (
      or_text-IsLabel (sanitize_argo_application_name target_environment)
        (sanitize_argo_application_name environment_id) (sanitize-IsLabel target_environment)
        (sanitize-IsLabel environment_id))

is_space_of_name : (c : ℕ) → is_name_rune c ≡ true → is_space c ≡ false
unfolding is_space
is_space_of_name c h = ground arith

lower_rune_of_name : (c : ℕ) → is_name_rune c ≡ true → lower_rune c ≡ c
unfolding lower_rune
lower_rune_of_name c h = ground arith

replace_rune_of_name : (c : ℕ) → is_name_rune c ≡ true → replace_rune b'_' b'-' c ≡ c
replace_rune_of_name c h = ground arith

replace_runs_fixed :
    (b : Bool) (s : Text) → All (λ c. is_name_rune c ≡ true) s → replace_runs b s ≡ s
unfolding replace_runs
replace_runs_fixed b [] h = refl
replace_runs_fixed b (c ∷ s) (p, h) = rw (p, replace_runs_fixed false s h)

All-Starts : (cut : ℕ → Bool) (s : Text) → All (λ c. cut c ≡ false) s → Starts cut s
All-Starts cut [] h = tt
All-Starts cut (c ∷ s) (p, h) = p

All-Ends : (cut : ℕ → Bool) (s : Text) → All (λ c. cut c ≡ false) s → Ends cut s
All-Ends cut [] h = tt
All-Ends cut (c ∷ []) (p, h) = p
All-Ends cut (c ∷ d ∷ s) (p, h) = All-Ends cut (d ∷ s) h

pub empty-nil : (s : Text) → is_empty s ≡ true → [] ≡ s
unfolding is_empty
empty-nil [] e = refl
empty-nil (c ∷ s) e = cc

trim_space_of_name : (s : Text) → All (λ c. is_name_rune c ≡ true) s → trim_space s ≡ s
unfolding trim_space
trim_space_of_name s h =
    let clean =
      All-mono (λ c. is_name_rune c ≡ true) (λ c. is_space c ≡ false) is_space_of_name s h in
    trim_fixed is_space s (All-Starts is_space s clean) (All-Ends is_space s clean)

to_lower_of_name : (s : Text) → All (λ c. is_name_rune c ≡ true) s → to_lower s ≡ s
unfolding to_lower
to_lower_of_name s h =
    map_fixed lower_rune s
      (All-mono (λ c. is_name_rune c ≡ true) (λ c. lower_rune c ≡ c) lower_rune_of_name s h)

replace_all_of_name : (s : Text) → All (λ c. is_name_rune c ≡ true) s → replace_all b'_' b'-' s ≡ s
unfolding replace_all
replace_all_of_name s h = map_fixed (replace_rune b'_' b'-') s (
    All-mono (λ c. is_name_rune c ≡ true) (λ c. replace_rune b'_' b'-' c ≡ c) replace_rune_of_name s
      h)

trim_argo_application_name_fixed : (s : Text) → IsLabel s → trim_argo_application_name s ≡ s
unfolding trim_argo_application_name
trim_argo_application_name_fixed s (h, le, begins, ends) =
    rw (trim_fixed is_dash s begins ends, le→leb (length s) 63 le) refl

-- A name that is fit already stays as it is, so sanitizing twice is sanitizing once.
pub sanitize_argo_application_name_fixed :
    (s : Text) → IsLabel s → sanitize_argo_application_name s ≡ s
unfolding sanitize_argo_application_name
sanitize_argo_application_name_fixed s (h, le, begins, ends) = elim (Bool-cases (is_empty s)) [
  | inl e ↦ rw (trim_space_of_name s h, to_lower_of_name s h, e) (empty-nil s e)
  | inr e ↦
      rw
        (
          trim_space_of_name s h,
          to_lower_of_name s h,
          e,
          replace_all_of_name s h,
          replace_runs_fixed false s h,
          trim_fixed is_dash s begins ends,
          trim_argo_application_name_fixed s (h, le, begins, ends),
        )
        refl
]
