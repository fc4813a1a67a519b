-- ===== src/Release/Names/Begins.antt =====
-- What deriveArgoApplicationName of internal/release/service/release.go keeps of its arguments.
use devflow_service.Base.{
  ==_iff, All, Bool, Bool-cases, [], any, ap, arith, false, inl, inr, leb, length, not, refl, sym,
  take, true, ℕ, ◌++◌, ◌==◌, ◌∙◌, ◌∷◌, ◌≡◌,
}
use devflow_service.Release.Names.{
  derive_argo_application_name, is_dash, is_lower_or_digit, is_name_rune, join_name, or_text,
  replace_runs, sanitize_argo_application_name, trim_argo_application_name,
}
use devflow_service.Release.Names.Label.{
  IsLabel, derive_argo_application_name-IsLabel, empty-nil, replace_runs-All, sanitize-IsLabel,
}
use devflow_service.Text.{
  Text, is_empty, replace_all, replace_rune, to_lower, trim, trim_right, trim_space,
}
use devflow_service.Text.Kept.{any-trim, take-append, trim-append}
use devflow_service.Text.Trim.{Starts, trim-All, trim-Starts}

-- The text has a character that sanitizing keeps.
abbrev pub has_name : Text → Bool
has_name = any is_lower_or_digit

dash_apart : (c : ℕ) → is_dash c ≡ true → is_lower_or_digit c ≡ false
dash_apart c h = ground arith

other_apart : (c : ℕ) → is_name_rune c ≡ false → is_lower_or_digit c ≡ false
other_apart c h = ground arith

replace_rune_keeps : (c : ℕ) → is_lower_or_digit (replace_rune b'_' b'-' c) ≡ is_lower_or_digit c
replace_rune_keeps c = elim (Bool-cases (c == b'_')) [
  | inl e ↦ rw ((==_iff c b'_').0 e) refl
  | inr e ↦ rw e refl
]

has_name-replace_all : (s : Text) → has_name (replace_all b'_' b'-' s) ≡ has_name s
unfolding replace_all
has_name-replace_all [] = refl
has_name-replace_all (c ∷ s) = rw (replace_rune_keeps c, has_name-replace_all s) refl

has_name-replace_runs : (b : Bool) (s : Text) → has_name (replace_runs b s) ≡ has_name s
unfolding replace_runs
has_name-replace_runs b [] = refl
has_name-replace_runs b (c ∷ s) = elim (Bool-cases (is_name_rune c)) [
  | inl e ↦ rw (e, has_name-replace_runs false s) refl
  | inr off ↦ elim (Bool-cases b) [
    | inl k ↦ rw (off, k, other_apart c off) (has_name-replace_runs true s)
    | inr k ↦ rw (off, k, other_apart c off) (has_name-replace_runs true s)
  ]
]

first_is_name : (c : ℕ) → is_name_rune c ≡ true → is_dash c ≡ false → is_lower_or_digit c ≡ true
first_is_name c h k = ground arith

-- A fit name is empty only where it has no letter and no digit.
empty_label : (s : Text) → IsLabel s → is_empty s ≡ not (has_name s)
unfolding is_empty
empty_label [] h = refl
empty_label (c ∷ s) ((p, h), le, begins, ends) = rw (first_is_name c p begins) refl

has_name-take :
    (s : Text)
    → All (λ c. is_name_rune c ≡ true) s
    → Starts is_dash s
    → has_name (take 63 s) ≡ has_name s
has_name-take [] h begins = refl
has_name-take (c ∷ s) (p, h) begins = rw (first_is_name c p begins) refl

has_name-cut :
    (s : Text)
    → All (λ c. is_name_rune c ≡ true) s
    → has_name (trim_argo_application_name s) ≡ has_name s
unfolding trim_argo_application_name
has_name-cut s h = elim (Bool-cases (leb (length (trim is_dash s)) 63)) [
  | inl le ↦ rw le (any-trim is_dash is_lower_or_digit dash_apart s)
  | inr gt ↦ rw gt (
      any-trim is_dash is_lower_or_digit dash_apart (take 63 (trim is_dash s))
      ∙ has_name-take (trim is_dash s) (trim-All is_dash (λ c. is_name_rune c ≡ true) s h)
          (trim-Starts is_dash s)
      ∙ any-trim is_dash is_lower_or_digit dash_apart s)
]

has_name-sanitize :
    (s : Text) → has_name (sanitize_argo_application_name s) ≡ has_name (to_lower (trim_space s))
unfolding sanitize_argo_application_name
has_name-sanitize s = elim (Bool-cases (is_empty (to_lower (trim_space s)))) [
  | inl e ↦ rw e (ap has_name (empty-nil (to_lower (trim_space s)) e))
  | inr off ↦
      let lowered = to_lower (trim_space s) in
      let runs = replace_runs false (replace_all b'_' b'-' lowered) in
      rw off (
        has_name-cut (trim is_dash runs) (
          trim-All is_dash (λ c. is_name_rune c ≡ true) runs
            (replace_runs-All false (replace_all b'_' b'-' lowered)))
        ∙ any-trim is_dash is_lower_or_digit dash_apart runs
        ∙ has_name-replace_runs false (replace_all b'_' b'-' lowered)
        ∙ has_name-replace_all lowered)
]

abbrev BeginsWith : Text → Text → Type 0
BeginsWith s base = (rest : Text) × (s ≡ base ++ rest)

begins_by : (s t base : Text) → s ≡ t → BeginsWith t base → BeginsWith s base
begins_by s t base e (rest, h) = (rest, e ∙ h)

trim-BeginsWith :
    (base rest : Text)
    → is_empty base ≡ false
    → IsLabel base
    → BeginsWith (trim is_dash (base ++ rest)) base
trim-BeginsWith base rest filled (h, le, begins, ends) =
    (trim_right is_dash rest, trim-append is_dash base rest filled begins ends)

cut-BeginsWith :
    (base rest : Text)
    → is_empty base ≡ false
    → IsLabel base
    → BeginsWith (trim_argo_application_name (base ++ rest)) base
unfolding trim_argo_application_name
cut-BeginsWith base rest filled label =
    let (kept, e) = trim-BeginsWith base rest filled label in
    elim (Bool-cases (leb (length (trim is_dash (base ++ rest))) 63)) [
      | inl le ↦ rw le (kept, e)
      | inr gt ↦
          let (cut, e2) = take-append 63 base kept label.1 in
          rw gt (
            begins_by _ _ base (ap (trim is_dash) (ap (take 63) e ∙ e2))
              (trim-BeginsWith base cut filled label))
    ]

append_nil : (s : Text) → s ≡ s ++ []
append_nil [] = refl
append_nil (c ∷ s) = ap (λ t. c ∷ t) (append_nil s)

join-BeginsWith : (base env : Text) → IsLabel base → BeginsWith (join_name base env) base
join-BeginsWith base env label = elim (Bool-cases (is_empty base)) [
  | inl e ↦ rw e ([], empty-nil base e ∙ append_nil base)
  | inr filled ↦ elim (Bool-cases (is_empty env)) [
    | inl e ↦ rw (filled, e) ([], append_nil base)
    | inr e ↦ rw (filled, e) (cut-BeginsWith base (b'-' ∷ env) filled label)
  ]
]

prefix_filled : (base rest : Text) → is_empty base ≡ false → is_empty (base ++ rest) ≡ false
unfolding is_empty
prefix_filled [] rest e = cc
prefix_filled (c ∷ base) rest e = refl

join_empty : (base env : Text) → IsLabel base → is_empty (join_name base env) ≡ is_empty base
unfolding is_empty
join_empty base env label = elim (Bool-cases (is_empty base)) [
  | inl e ↦ rw e refl
  | inr filled ↦
      let (rest, e) = join-BeginsWith base env label in
      ap is_empty e ∙ prefix_filled base rest filled ∙ sym filled
]

-- The name is fit, begins with what sanitizing makes of the base, and is empty only where the base
-- has no letter and no digit.
abbrev pub IsNameOf : Text → Text → Type 0
IsNameOf base name =
    IsLabel name
    × BeginsWith name (sanitize_argo_application_name base)
    × (is_empty name ≡ not (has_name (to_lower (trim_space base))))

-- The name of the Argo application is made of at most 63 lower case letters, digits and dashes, with
-- no dash at either end. It begins with all that sanitizing makes of the application's name, or of
-- the application's id where that name is blank, so that only the environment behind it is ever
-- cut. It is empty exactly where that name or id, once lower-cased, has no ASCII letter and no
-- digit.
pub derive_argo_application_name-IsNameOf :
    (app_name target_environment application_id environment_id : Text)
    → IsNameOf
        (or_text (trim_space app_name) application_id)
        (derive_argo_application_name app_name target_environment application_id environment_id)
unfolding derive_argo_application_name
derive_argo_application_name-IsNameOf app_name target_environment application_id environment_id =
    let base = or_text (trim_space app_name) application_id in
    let env =
      or_text (sanitize_argo_application_name target_environment)
        (sanitize_argo_application_name environment_id) in
    let label = sanitize-IsLabel base in
    (
      derive_argo_application_name-IsLabel app_name target_environment application_id
          environment_id,
      join-BeginsWith (sanitize_argo_application_name base) env label,
      join_empty (sanitize_argo_application_name base) env label
          ∙ empty_label (sanitize_argo_application_name base) label
          ∙ ap not (has_name-sanitize base),
    )
