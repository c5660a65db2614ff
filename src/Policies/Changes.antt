-- ===== src/Policies/Changes.antt =====
-- The calls of `PoliciesClient` that change policies or run candidates (src/policies.rs).
use clavenar_sdk.Prelude.{String, ◌<>◌}
use clavenar_sdk.Prelude.Int.{ℤ}
use clavenar_sdk.Effects.{Run, lift, ◌>>=◌}
use clavenar_sdk.Error.{ClavenarError}
use clavenar_sdk.Platform.{Platform}
use clavenar_sdk.Service.{Method}
use clavenar_sdk.Service.Decimal.{show_int}
use clavenar_sdk.Service.Text.{percent_text}
use clavenar_sdk.Policies.Records.{
  CreatePolicyRequest, UpdatePolicyRequest, StateChangeRequest, RollbackRequest,
  BatchStateChangeRequest, ValidatePolicyRequest, EvaluateBatchRequest, MutationResponse,
  ValidatePolicyResponse, BatchMutationResponse, EvaluateBatchResponse,
}
use clavenar_sdk.Policies.Lab.{
  MineRequest, MineResponse, InstallTemplateRequest, LabTemplateRequest,
}
use clavenar_sdk.Policies.Client.{PoliciesCodec, PoliciesClient, join, send_json}

module _ (p : Platform) (codec : PoliciesCodec) {W : Type 0} (client : PoliciesClient W) where
  unfoldable pub create : CreatePolicyRequest → Run W ClavenarError MutationResponse
  unfolding join send_json
  create req = do
    url ← lift (join p codec client "policies")
    send_json p codec client codec.parse_mutation Method.post url (codec.create_json req)

  unfoldable pub validate : ValidatePolicyRequest → Run W ClavenarError ValidatePolicyResponse
  unfolding join send_json
  validate req = do
    url ← lift (join p codec client "policies/validate")
    send_json p codec client codec.parse_validation Method.post url (codec.validate_json req)

  unfoldable pub update : String → UpdatePolicyRequest → Run W ClavenarError MutationResponse
  unfolding join send_json
  update name req = do
    url ← lift (join p codec client ("policies/" <> percent_text name))
    send_json p codec client codec.parse_mutation Method.put url (codec.update_json req)

  unfoldable pub activate : String → StateChangeRequest → Run W ClavenarError MutationResponse
  unfolding join send_json
  activate name req = do
    url ← lift (join p codec client ("policies/" <> (percent_text name <> "/activate")))
    send_json p codec client codec.parse_mutation Method.post url (codec.state_json req)

  unfoldable pub deactivate : String → StateChangeRequest → Run W ClavenarError MutationResponse
  unfolding join send_json
  deactivate name req = do
    url ← lift (join p codec client ("policies/" <> (percent_text name <> "/deactivate")))
    send_json p codec client codec.parse_mutation Method.post url (codec.state_json req)

  unfoldable pub activate_category :
      String → BatchStateChangeRequest → Run W ClavenarError BatchMutationResponse
  unfolding join send_json
  activate_category domain req = do
    url ←
        lift (join p codec client ("policies/categories/" <> (percent_text domain <> "/activate")))
    send_json p codec client codec.parse_batch_mutation Method.post url (codec.batch_state_json req)

  unfoldable pub deactivate_category :
      String → BatchStateChangeRequest → Run W ClavenarError BatchMutationResponse
  unfolding join send_json
  deactivate_category domain req = do
    url ←
        lift
          (join p codec client ("policies/categories/" <> (percent_text domain <> "/deactivate")))
    send_json p codec client codec.parse_batch_mutation Method.post url (codec.batch_state_json req)

  unfoldable pub delete : String → StateChangeRequest → Run W ClavenarError MutationResponse
  unfolding join send_json
  delete name req = do
    url ← lift (join p codec client ("policies/" <> percent_text name))
    send_json p codec client codec.parse_mutation Method.delete url (codec.state_json req)

  unfoldable pub evaluate_batch : EvaluateBatchRequest → Run W ClavenarError EvaluateBatchResponse
  unfolding join send_json
  evaluate_batch req = do
    url ← lift (join p codec client "policies/evaluate-batch")
    send_json p codec client codec.parse_evaluation Method.post url (codec.evaluate_json req)

  unfoldable pub mine : MineRequest → Run W ClavenarError MineResponse
  unfolding join send_json
  mine req = do
    url ← lift (join p codec client "policies/mine")
    send_json p codec client codec.parse_mined Method.post url (codec.mine_json req)

  unfoldable pub install_template :
      String → InstallTemplateRequest → Run W ClavenarError MutationResponse
  unfolding join send_json
  install_template name req = do
    url ← lift (join p codec client ("policies/templates/" <> (percent_text name <> "/install")))
    send_json p codec client codec.parse_mutation Method.post url (codec.install_json req)

  unfoldable pub lab_template :
      String → LabTemplateRequest → Run W ClavenarError EvaluateBatchResponse
  unfolding join send_json
  lab_template name req = do
    url ← lift (join p codec client ("policies/templates/" <> (percent_text name <> "/lab")))
    send_json p codec client codec.parse_evaluation Method.post url (codec.lab_json req)

  unfoldable pub rollback : String → ℤ → RollbackRequest → Run W ClavenarError MutationResponse
  unfolding join send_json
  rollback name version req = do
    url ← lift (
        join p codec client
          ("policies/" <> (percent_text name <> ("/rollback/" <> show_int version))))
    send_json p codec client codec.parse_mutation Method.post url (codec.rollback_json req)
