-- ===== src/Policies/Records.antt =====
-- The requests and answers of the policy engine (src/policies.rs). Times are their RFC 3339 texts.
use clavenar_sdk.Prelude.{ℕ, Bool, String, Option, List}
use clavenar_sdk.Prelude.Int.{ℤ}
use clavenar_sdk.Json.{Value}
use clavenar_sdk.Records.{Uuid}

pub record PolicyRow : Type 0 where
  pub name : String
  pub content_type : String
  pub active : Bool
  pub protected : Bool
  pub current_version : ℤ
  pub deleted_at : Option String
  pub created_at : String
  pub updated_at : String
  pub domain : Option String
  pub severity : Option String
  pub frameworks : List String
  pub tags : List String
  pub tier : Option String
  pub tool_surface : List String
  pub summary : Option String

pub record PolicyVersionRow : Type 0 where
  pub name : String
  pub version : ℤ
  pub body : String
  pub body_sha256 : String
  pub reason : String
  pub actor_sub : String
  pub actor_idp : String
  pub chain_seq : Option ℤ
  pub created_at : String

pub record PolicyDetail : Type 0 where
  pub policy : PolicyRow
  pub current_body : String
  pub current_body_sha256 : String

pub record MutationResponse : Type 0 where
  pub name : String
  pub version : ℤ
  pub body_sha256 : String
  pub current_version : ℤ
  pub active : Bool
  pub event_kind : String

pub record ConflictResponse : Type 0 where
  pub error : String
  pub policy : PolicyRow

pub record CreatePolicyRequest : Type 0 where
  pub name : String
  pub content_type : String
  pub body : String
  pub reason : String
  pub actor_sub : String
  pub actor_idp : String
  pub active : Option Bool

pub record UpdatePolicyRequest : Type 0 where
  pub body : String
  pub reason : String
  pub actor_sub : String
  pub actor_idp : String
  pub expected_current_version : ℤ

pub record StateChangeRequest : Type 0 where
  pub reason : String
  pub actor_sub : String
  pub actor_idp : String
  pub expected_current_version : ℤ

pub record RollbackRequest : Type 0 where
  pub reason : String
  pub actor_sub : String
  pub actor_idp : String

pub record BatchStateChangeRequest : Type 0 where
  pub reason : String
  pub actor_sub : String
  pub actor_idp : String

pub record BatchMutationResponse : Type 0 where
  pub changed : ℕ
  pub skipped : ℕ
  pub results : List MutationResponse

pub record PoliciesListResponse : Type 0 where
  pub policies : List PolicyRow

pub record VersionsListResponse : Type 0 where
  pub versions : List PolicyVersionRow

pub record DiffResponse : Type 0 where
  pub name : String
  pub from : ℤ
  pub to : ℤ
  pub diff : String

pub data BatchMode : Type 0 where
  add replace : BatchMode

pub data DiffClass : Type 0 where
  allow_to_deny allow_to_yellow deny_to_allow yellow_to_allow yellow_to_deny deny_to_yellow
        unchanged :
      DiffClass

pub record BatchVerdict : Type 0 where
  pub allow : Bool
  pub reasons : List String
  pub review_reasons : List String

pub record BatchVerdictResult : Type 0 where
  pub correlation_id : Option String
  pub input : Option Value
  pub before : BatchVerdict
  pub after : BatchVerdict
  pub diff : DiffClass

pub record EvaluateBatchRequest : Type 0 where
  pub candidate_rego : String
  pub candidate_name : String
  pub mode : BatchMode
  pub replace_rule_name : Option String
  pub inputs : List Value

pub record EvaluateBatchResponse : Type 0 where
  pub active_compile_ok : Bool
  pub candidate_compile_ok : Bool
  pub results : List BatchVerdictResult

pub record CompileError : Type 0 where
  pub message : String
  pub line : Option ℕ
  pub column : Option ℕ

pub record EvaluateBatchError : Type 0 where
  pub active_compile_ok : Bool
  pub candidate_compile_ok : Bool
  pub compile_error : CompileError

pub data PolicyTenantLifecycleKind : Type 0 where
  provision offboard : PolicyTenantLifecycleKind

pub record PolicyTenantLifecycleReceipt : Type 0 where
  pub tenant : String
  pub operation_id : Uuid
  pub kind : PolicyTenantLifecycleKind
  pub state : String
  pub generation : ℤ
  pub policies : ℕ
  pub receipt_sha256 : String
  pub updated_at : String

pub record PolicyTenantLifecycleRequest : Type 0 where
  pub operation_id : Uuid
  pub kind : PolicyTenantLifecycleKind

pub record ValidatePolicyRequest : Type 0 where
  pub name : String
  pub content_type : String
  pub body : String

pub record ValidatePolicyResponse : Type 0 where
  pub ok : Bool
  pub error : Option CompileError
