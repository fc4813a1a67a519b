-- ===== src/Release/Names.antt =====
-- deriveArgoApplicationName of internal/release/service/release.go and what it calls.
pub mod Label
pub mod Begins
use devflow_service.Base.{
  Bool, [], false, if◌then◌else◌, leb, length, take, true, ℕ, ◌&&◌, ◌++◌, ◌==◌, ◌||◌, ◌∷◌,
}
use devflow_service.Text.{Text, is_empty, replace_all, to_lower, trim, trim_space}

abbrev pub is_lower_or_digit : ℕ → Bool
is_lower_or_digit c = (leb b'a' c && leb c b'z') || (leb b'0' c && leb c b'9')

abbrev pub is_dash : ℕ → Bool
is_dash c = c == b'-'

-- The class of the regular expression `[^a-z0-9-]+`, without the negation.
abbrev pub is_name_rune : ℕ → Bool
is_name_rune c = is_lower_or_digit c || is_dash c

-- `argoApplicationNameSanitizer.ReplaceAllString(value, "-")`: each maximal run of other characters
-- becomes one dash. The Boolean tells whether the character before belongs to such a run.
pub replace_runs : Bool → Text → Text
replace_runs in_run [] = []
replace_runs in_run (c ∷ s) =
    let kept = replace_runs false s in
    let dropped = replace_runs true s in
    if is_name_rune c then c ∷ kept else if in_run then dropped else b'-' ∷ dropped

-- `trimArgoApplicationName`. Its argument is ASCII, so `len` counts characters.
pub trim_argo_application_name : Text → Text
unfolding trim
trim_argo_application_name value =
    let trimmed = trim is_dash value in
    if leb (length trimmed) 63 then trimmed else trim is_dash (take 63 trimmed)

-- `sanitizeArgoApplicationName`; the early return on an empty value gives what the rest gives.
pub sanitize_argo_application_name : Text → Text
unfolding to_lower trim_space replace_all replace_runs trim_argo_application_name
sanitize_argo_application_name value =
    let lowered = to_lower (trim_space value) in
    if is_empty lowered
    then []
    else trim_argo_application_name
        (trim is_dash (replace_runs false (replace_all b'_' b'-' lowered)))

abbrev pub or_text : Text → Text → Text
or_text a b = if is_empty a then b else a

abbrev pub join_name : Text → Text → Text
join_name base env =
    if is_empty base
    then []
    else if is_empty env
    then base
    else trim_argo_application_name (base ++ (b'-' ∷ env))

-- `deriveArgoApplicationName` for the name of the application and of the target environment, and
-- the texts of the release's application id and environment id; a nil pointer counts as empty.
unfoldable pub derive_argo_application_name : Text → Text → Text → Text → Text
unfolding sanitize_argo_application_name
derive_argo_application_name app_name target_environment application_id environment_id =
    join_name (sanitize_argo_application_name (or_text (trim_space app_name) application_id)) (
      or_text (sanitize_argo_application_name target_environment)
        (sanitize_argo_application_name environment_id))
