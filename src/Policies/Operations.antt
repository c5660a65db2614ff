-- ===== src/Policies/Operations.antt =====
-- The CRUD calls of `PoliciesClient` (src/policies.rs) as one type.
use clavenar_sdk.Prelude.{String, Bool, List, string_eq}
use clavenar_sdk.Prelude.Int.{ℤ}
use clavenar_sdk.Effects.{Run}
use clavenar_sdk.Error.{ClavenarError}
use clavenar_sdk.Platform.{Platform}
use clavenar_sdk.Policies.Records.{
  BatchMutationResponse, BatchStateChangeRequest, CreatePolicyRequest, DiffResponse,
  EvaluateBatchRequest, EvaluateBatchResponse, MutationResponse, PolicyDetail, PolicyRow,
  PolicyVersionRow, RollbackRequest, StateChangeRequest, UpdatePolicyRequest, ValidatePolicyRequest,
  ValidatePolicyResponse,
}
use clavenar_sdk.Policies.Lab.{
  InstallTemplateRequest, LabTemplateRequest, MineRequest, MineResponse, PolicyTemplate,
  PolicyTemplateDetail,
}
use clavenar_sdk.Policies.Client
use clavenar_sdk.Policies.Client.{
  PoliciesCodec, PoliciesClient, join, get_json, send_json, list_url, diff_url,
}
use clavenar_sdk.Policies.Changes

pub data Operation : Type 0 where
  list : Bool → Operation
  get : String → Operation
  list_versions : String → Operation
  get_version : String → ℤ → Operation
  diff : String → ℤ → ℤ → Operation
  list_templates : Operation
  get_template : String → Operation
  create : CreatePolicyRequest → Operation
  validate : ValidatePolicyRequest → Operation
  update : String → UpdatePolicyRequest → Operation
  activate : String → StateChangeRequest → Operation
  deactivate : String → StateChangeRequest → Operation
  activate_category : String → BatchStateChangeRequest → Operation
  deactivate_category : String → BatchStateChangeRequest → Operation
  delete : String → StateChangeRequest → Operation
  evaluate_batch : EvaluateBatchRequest → Operation
  mine : MineRequest → Operation
  install_template : String → InstallTemplateRequest → Operation
  lab_template : String → LabTemplateRequest → Operation
  rollback : String → ℤ → RollbackRequest → Operation

abbrev pub Answer : Operation → Type 0
Answer (list _) = List PolicyRow
Answer (get _) = PolicyDetail
Answer (list_versions _) = List PolicyVersionRow
Answer (get_version _ _) = PolicyVersionRow
Answer (diff _ _ _) = DiffResponse
Answer list_templates = List PolicyTemplate
Answer (get_template _) = PolicyTemplateDetail
Answer (create _) = MutationResponse
Answer (validate _) = ValidatePolicyResponse
Answer (update _ _) = MutationResponse
Answer (activate _ _) = MutationResponse
Answer (deactivate _ _) = MutationResponse
Answer (activate_category _ _) = BatchMutationResponse
Answer (deactivate_category _ _) = BatchMutationResponse
Answer (delete _ _) = MutationResponse
Answer (evaluate_batch _) = EvaluateBatchResponse
Answer (mine _) = MineResponse
Answer (install_template _ _) = MutationResponse
Answer (lab_template _ _) = EvaluateBatchResponse
Answer (rollback _ _ _) = MutationResponse

module _ (p : Platform) (codec : PoliciesCodec) {W : Type 0} (client : PoliciesClient W) where
  unfoldable pub run : (o : Operation) → Run W ClavenarError (Answer o)
  run (list include_deleted) = Client.list p codec client include_deleted
  run (get name) = Client.get p codec client name
  run (list_versions name) = Client.list_versions p codec client name
  run (get_version name version) = Client.get_version p codec client name version
  run (diff name from to) = Client.diff p codec client name from to
  run list_templates = Client.list_templates p codec client
  run (get_template name) = Client.get_template p codec client name
  run (create req) = Changes.create p codec client req
  run (validate req) = Changes.validate p codec client req
  run (update name req) = Changes.update p codec client name req
  run (activate name req) = Changes.activate p codec client name req
  run (deactivate name req) = Changes.deactivate p codec client name req
  run (activate_category domain req) = Changes.activate_category p codec client domain req
  run (deactivate_category domain req) = Changes.deactivate_category p codec client domain req
  run (delete name req) = Changes.delete p codec client name req
  run (evaluate_batch req) = Changes.evaluate_batch p codec client req
  run (mine req) = Changes.mine p codec client req
  run (install_template name req) = Changes.install_template p codec client name req
  run (lab_template name req) = Changes.lab_template p codec client name req
  run (rollback name version req) = Changes.rollback p codec client name version req
