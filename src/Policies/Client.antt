-- ===== src/Policies/Client.antt =====
-- `PoliciesClient` of src/policies.rs: the calls of the policy engine.
use clavenar_sdk.Prelude.{
  ℕ, if◌then◌else◌, Bool, true, false, String, ◌<>◌, Option, none, some, List, is_some,
}
use clavenar_sdk.Prelude.Int.{ℤ}
use clavenar_sdk.Effects.{Result, ok, err, Run, pure, lift, ◌>>=◌}
use clavenar_sdk.Error.{ClavenarError, server}
use clavenar_sdk.Json.{Value}
use clavenar_sdk.Http.BaseUrl.{UrlApi}
use clavenar_sdk.Http.Provider.{connect}
use clavenar_sdk.Platform.{Platform}
use clavenar_sdk.Records.{Uuid}
use clavenar_sdk.Service.{
  Url, Method, json, no_body, Reply, Provider, request, with_auth, append_pair, append_some,
  map_url, is_success, join_as, reply_text, send, perform,
}
use clavenar_sdk.Service.Decimal.{show_int}
use clavenar_sdk.Service.Text.{percent_text}
use clavenar_sdk.Policies.Records.{
  PolicyRow, PolicyTenantLifecycleKind, BatchMutationResponse, BatchStateChangeRequest,
  ConflictResponse, CreatePolicyRequest, DiffResponse, EvaluateBatchError, EvaluateBatchRequest,
  EvaluateBatchResponse, MutationResponse, PoliciesListResponse, PolicyDetail,
  PolicyTenantLifecycleReceipt, PolicyTenantLifecycleRequest, PolicyVersionRow, RollbackRequest,
  StateChangeRequest, UpdatePolicyRequest, ValidatePolicyRequest, ValidatePolicyResponse,
  VersionsListResponse,
}
use clavenar_sdk.Policies.Lab.{
  InstallTemplateRequest, LabTemplateRequest, MineError, MineRequest, MineResponse,
  PolicyTemplateDetail, PolicyTemplate,
}

-- serde's parsers of the answers, with the errors' texts, and its printers of the bodies.
pub record PoliciesCodec : Type 0 where
  pub parse_policies : String → Result String PoliciesListResponse
  pub parse_detail : String → Result String PolicyDetail
  pub parse_versions : String → Result String VersionsListResponse
  pub parse_version : String → Result String PolicyVersionRow
  pub parse_diff : String → Result String DiffResponse
  pub parse_mutation : String → Result String MutationResponse
  pub parse_validation : String → Result String ValidatePolicyResponse
  pub parse_batch_mutation : String → Result String BatchMutationResponse
  pub parse_evaluation : String → Result String EvaluateBatchResponse
  pub parse_mined : String → Result String MineResponse
  pub parse_templates : String → Result String (List PolicyTemplate)
  pub parse_template : String → Result String PolicyTemplateDetail
  pub parse_receipt : String → Result String PolicyTenantLifecycleReceipt
  pub parse_conflict : String → Result String ConflictResponse
  pub parse_batch_error : String → Result String EvaluateBatchError
  pub parse_mine_error : String → Result String MineError
  pub create_json : CreatePolicyRequest → Value
  pub validate_json : ValidatePolicyRequest → Value
  pub update_json : UpdatePolicyRequest → Value
  pub state_json : StateChangeRequest → Value
  pub batch_state_json : BatchStateChangeRequest → Value
  pub evaluate_json : EvaluateBatchRequest → Value
  pub mine_json : MineRequest → Value
  pub install_json : InstallTemplateRequest → Value
  pub lab_json : LabTemplateRequest → Value
  pub rollback_json : RollbackRequest → Value
  pub lifecycle_json : PolicyTenantLifecycleRequest → Value

pub record PoliciesClient (W : Type 0) : Type 0 where
  pub base_url : String
  pub http : Provider W
  pub bearer : Option String
  pub tenant : Option String

pub new :
    {W U : Type 0}
    → UrlApi U
    → (U → String)
    → (ℕ → ℕ → Result String (Provider W))
    → String
    → Run (Option (Provider W)) ClavenarError (PoliciesClient W)
new api text build base_url = do
  parts ← connect api text build base_url
  pure (record { base_url = parts.0; http = parts.1; bearer = none; tenant = none })

abbrev with_http_provider : {W : Type 0} → PoliciesClient W → Provider W → PoliciesClient W
with_http_provider client provider = record client { http = provider }

abbrev with_bearer : {W : Type 0} → PoliciesClient W → String → PoliciesClient W
with_bearer client token = record client { bearer = some token }

abbrev with_tenant : {W : Type 0} → PoliciesClient W → Option String → PoliciesClient W
with_tenant client tenant = record client { tenant = tenant }

abbrev has_bearer : {W : Type 0} → PoliciesClient W → Bool
has_bearer client = is_some client.bearer

-- `serde_json::from_str(body).ok()`
abbrev to_option : {A : Type 0} → Result String A → Option A
to_option (ok a) = some a
to_option (err e) = none

module _ (codec : PoliciesCodec) where
  pub parse_conflict : String → Option ConflictResponse
  parse_conflict body = to_option (codec.parse_conflict body)

  pub parse_batch_error : String → Option EvaluateBatchError
  parse_batch_error body = to_option (codec.parse_batch_error body)

  pub parse_mine_error : String → Option MineError
  parse_mine_error body = to_option (codec.parse_mine_error body)

abbrev refused_with : Result ClavenarError String → ℕ → Result ClavenarError (Unit {0})
refused_with (ok body) status = err (server status body)
refused_with (err e) status = err e

module _ (p : Platform) (codec : PoliciesCodec) {W : Type 0} (client : PoliciesClient W) where
  -- The one place where a CRUD call's URL is built: a tenant-scoped client stamps its tenant.
  unfoldable pub join : String → Result ClavenarError Url
  join suffix =
      map_url (append_some "tenant" client.tenant) (join_as p suffix client.base_url suffix)

  unfoldable pub get_json : {A : Type 0} → (String → Result String A) → Url → Run W ClavenarError A
  get_json parse url =
      perform p client.http parse (with_auth client.bearer (request Method.get url no_body))

  unfoldable pub send_json :
      {A : Type 0} → (String → Result String A) → Method → Url → Value → Run W ClavenarError A
  send_json parse method url body =
      perform p client.http parse (with_auth client.bearer (request method url (json body)))

  unfoldable pub tenant_lifecycle :
      String → Uuid → PolicyTenantLifecycleKind → Run W ClavenarError PolicyTenantLifecycleReceipt
  unfolding send_json
  tenant_lifecycle tenant operation_id kind = do
    url ← lift (
        join_as p "policy lifecycle" client.base_url
          ("admin/tenants/" <> (percent_text tenant <> "/lifecycle")))
    send_json codec.parse_receipt Method.post url
        (codec.lifecycle_json (record { operation_id = operation_id; kind = kind }))

  -- The body is read only where the engine refuses.
  abbrev provisioned : Reply → Result ClavenarError (Unit {0})
  provisioned reply =
      if is_success reply.response.status
      then ok tt
      else refused_with (reply_text p reply) reply.response.status

  unfoldable pub provision_tenant : String → Run W ClavenarError (Unit {0})
  provision_tenant prefix = do
    url ← lift (
        join_as p "provision" client.base_url
          ("policies/tenant/" <> (percent_text prefix <> "/provision")))
    reply ← send client.http (with_auth client.bearer (request Method.post url no_body))
    lift (provisioned reply)

  abbrev pub list_url : Bool → Url → Url
  list_url true url = append_pair "include_deleted" "true" url
  list_url false url = url

  unfoldable pub list : Bool → Run W ClavenarError (List PolicyRow)
  unfolding join get_json
  list include_deleted = do
    url ← lift (join "policies")
    resp ← get_json codec.parse_policies (list_url include_deleted url)
    pure resp.policies

  unfoldable pub get : String → Run W ClavenarError PolicyDetail
  unfolding join get_json
  get name = do
    url ← lift (join ("policies/" <> percent_text name))
    get_json codec.parse_detail url

  unfoldable pub list_versions : String → Run W ClavenarError (List PolicyVersionRow)
  unfolding join get_json
  list_versions name = do
    url ← lift (join ("policies/" <> (percent_text name <> "/versions")))
    resp ← get_json codec.parse_versions url
    pure resp.versions

  unfoldable pub get_version : String → ℤ → Run W ClavenarError PolicyVersionRow
  unfolding join get_json
  get_version name version = do
    url ← lift (join ("policies/" <> (percent_text name <> ("/versions/" <> show_int version))))
    get_json codec.parse_version url

  abbrev pub diff_url : ℤ → ℤ → Url → Url
  diff_url from to url = append_pair "to" (show_int to) (append_pair "from" (show_int from) url)

  unfoldable pub diff : String → ℤ → ℤ → Run W ClavenarError DiffResponse
  unfolding join get_json
  diff name from to = do
    url ← lift (join ("policies/" <> (percent_text name <> "/diff")))
    get_json codec.parse_diff (diff_url from to url)

  unfoldable pub list_templates : Run W ClavenarError (List PolicyTemplate)
  unfolding join get_json
  list_templates = do url ← lift (join "policies/templates"); get_json codec.parse_templates url

  unfoldable pub get_template : String → Run W ClavenarError PolicyTemplateDetail
  unfolding join get_json
  get_template name = do
    url ← lift (join ("policies/templates/" <> percent_text name))
    get_json codec.parse_template url
