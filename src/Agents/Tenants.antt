-- ===== src/Agents/Tenants.antt =====
-- The calls of `AgentsClient` on whole tenants (src/agents.rs): budgets, and the steps of a
-- tenant's life.
use clavenar_sdk.Prelude.{String, ◌<>◌, Option}
use clavenar_sdk.Prelude.Int.{ℤ}
use clavenar_sdk.Effects.{lift, ◌>>=◌}
use clavenar_sdk.Json.{object, end, field}
use clavenar_sdk.Platform.{Platform}
use clavenar_sdk.Agents.Records.{
  TenantBudget, TenantOffboardResult, TenantLifecycleKind, TenantLifecycleOperation,
  TenantLifecycleStepClaim, TenantLifecycleStepCompletion,
}
use clavenar_sdk.Agents.Client.{AgentsCodec, AgentsClient, Action, join, get_json, post_json}
use clavenar_sdk.Agents.Bodies.{lifecycle_json, offboard_json, completion_json}
use clavenar_sdk.Service.{Method, json, request, header, with_auth, perform}
use clavenar_sdk.Service.Body.{integer, single}
use clavenar_sdk.Service.Text.{percent_text}

module _ (p : Platform) (codec : AgentsCodec) {W : Type 0} (client : AgentsClient W) where
  abbrev pub tenant_path : String → String → String
  tenant_path tenant rest = "tenants/" <> (percent_text tenant <> rest)

  abbrev operation_path : String → String → String → String
  operation_path tenant operation_id rest =
      tenant_path tenant ("/lifecycle/" <> (percent_text operation_id <> rest))

  abbrev step_path : String → String → String → String → String
  step_path tenant operation_id step_id verb =
      operation_path tenant operation_id ("/steps/" <> (percent_text step_id <> verb))

  unfoldable pub get_budget : String → Action p codec client TenantBudget
  unfolding join get_json
  get_budget tenant = do
    url ← lift (join p codec client (tenant_path tenant "/budget"))
    get_json p codec client codec.parse_budget url

  unfoldable pub set_budget : String → ℤ → Action p codec client TenantBudget
  unfolding join post_json
  set_budget tenant budget_micros = do
    url ← lift (join p codec client (tenant_path tenant "/budget"))
    post_json p codec client codec.parse_budget url
        (object (field "budget_micros" (integer budget_micros) end))

  unfoldable pub start_tenant_lifecycle :
      String
      → String
      → TenantLifecycleKind
      → String
      → String
      → Action p codec client TenantLifecycleOperation
  unfolding join
  start_tenant_lifecycle tenant idempotency_key kind confirm reason = do
    url ← lift (join p codec client (tenant_path tenant "/lifecycle"))
    perform p client.http codec.parse_operation (
        with_auth client.bearer (
          header "Idempotency-Key" idempotency_key
            (request Method.post url (json (lifecycle_json kind confirm reason)))))

  unfoldable pub tenant_lifecycle : String → String → Action p codec client TenantLifecycleOperation
  unfolding join get_json
  tenant_lifecycle tenant operation_id = do
    url ← lift (join p codec client (operation_path tenant operation_id ""))
    get_json p codec client codec.parse_operation url

  unfoldable pub claim_tenant_lifecycle_step :
      String → String → String → String → Action p codec client TenantLifecycleStepClaim
  unfolding join post_json
  claim_tenant_lifecycle_step tenant operation_id step_id owner = do
    url ← lift (join p codec client (step_path tenant operation_id step_id "/claim"))
    post_json p codec client codec.parse_claim url (single "owner" owner)

  unfoldable pub complete_tenant_lifecycle_step :
      String
      → String
      → String
      → TenantLifecycleStepCompletion
      → Action p codec client TenantLifecycleOperation
  unfolding join post_json
  complete_tenant_lifecycle_step tenant operation_id step_id completion = do
    url ← lift (join p codec client (step_path tenant operation_id step_id "/complete"))
    post_json p codec client codec.parse_operation url (completion_json completion)

  unfoldable pub retry_tenant_lifecycle_step :
      String → String → String → Action p codec client TenantLifecycleOperation
  unfolding join post_json
  retry_tenant_lifecycle_step tenant operation_id step_id = do
    url ← lift (join p codec client (step_path tenant operation_id step_id "/retry"))
    post_json p codec client codec.parse_operation url (object end)

  unfoldable pub offboard_tenant_effect :
      String → String → Option String → String → String → Action p codec client TenantOffboardResult
  unfolding join
  offboard_tenant_effect tenant confirm reason operation_id lease_token = do
    url ← lift (join p codec client (tenant_path tenant "/offboard"))
    perform p client.http codec.parse_offboard (
        with_auth client.bearer (
          header "X-Clavenar-Lifecycle-Lease" lease_token (
            header "X-Clavenar-Lifecycle-Operation" operation_id
              (request Method.post url (json (offboard_json confirm reason))))))
