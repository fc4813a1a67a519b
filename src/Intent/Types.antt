-- ===== src/Intent/Types.antt =====
-- internal/intent/domain/intent.go and the intent constants of internal/release/domain/types.go.
use devflow_service.Base.{Bool, Option, false, true, ℕ}
use devflow_service.Text.{Text, text_eq}

pub data IntentKind : Type 0 where
  intent_build intent_release : IntentKind
  other_kind : Text → IntentKind

pub data IntentStatus : Type 0 where
  pending running succeeded failed : IntentStatus
  other : Text → IntentStatus

unfoldable pub same_kind : IntentKind → IntentKind → Bool
unfolding text_eq
same_kind intent_build intent_build = true
same_kind intent_release intent_release = true
same_kind (other_kind a) (other_kind b) = text_eq a b
same_kind _ _ = false

abbrev pub is_pending_intent : IntentStatus → Bool
is_pending_intent IntentStatus.pending = true
is_pending_intent _ = false

pub record Intent : Type 0 where
  pub id : ℕ
  pub created_at : ℕ
  pub updated_at : ℕ
  pub deleted_at : Option ℕ
  pub kind : IntentKind
  pub status : IntentStatus
  pub resource_type : Text
  pub resource_id : ℕ
  pub trace_id : Text
  pub message : Text
  pub last_error : Text
  pub claimed_by : Text
  pub claimed_at : Option ℕ
  pub lease_expires_at : Option ℕ
  pub attempt_count : ℕ
