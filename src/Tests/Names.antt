-- ===== src/Tests/Names.antt =====
-- The names of Argo applications.
use devflow_service.Base.{[], arith, refl, ◌≡◌}
use devflow_service.Release.Names.{
  derive_argo_application_name, or_text, sanitize_argo_application_name,
}
use devflow_service.Release.Names.Begins.{IsNameOf, derive_argo_application_name-IsNameOf}
use devflow_service.Release.Names.Label.{sanitize_argo_application_name_fixed}
use devflow_service.Text.{codes, is_empty, trim_space}

derive_argo_application_name-IsNameOf_example :
    IsNameOf
      (or_text (trim_space (codes " My_App!!x ")) (codes "7"))
      (derive_argo_application_name (codes " My_App!!x ") (codes "Staging ") (codes "7") [])
derive_argo_application_name-IsNameOf_example =
    derive_argo_application_name-IsNameOf (codes " My_App!!x ") (codes "Staging ") (codes "7") []

no_name_test : derive_argo_application_name (codes "!!!") (codes "Staging ") (codes "7") [] ≡ []
unfolding derive_argo_application_name is_empty
no_name_test = refl

name_test :
    derive_argo_application_name (codes " My_App!!x ") (codes "Staging ") (codes "7") []
    ≡ codes "my-app-x-staging"
unfolding derive_argo_application_name is_empty
name_test = refl

sanitize_argo_application_name_fixed_example :
    sanitize_argo_application_name (codes "a-1") ≡ codes "a-1"
sanitize_argo_application_name_fixed_example =
    sanitize_argo_application_name_fixed (codes "a-1")
      ((refl, (refl, (refl, tt))), omega arith, refl, refl)
