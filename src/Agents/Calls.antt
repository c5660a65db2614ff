-- ===== src/Agents/Calls.antt =====
-- Each call of `AgentsClient` (src/agents.rs) makes at most one exchange, and an authorized one.
use clavenar_sdk.Prelude.{refl, none, [], ◌∷◌, ◌++◌, ap}
use clavenar_sdk.Platform.{Platform}
use clavenar_sdk.Service.{header}
use clavenar_sdk.Service.Authorization.{IsDone}
use clavenar_sdk.Service.Codes.{codes-append}
use clavenar_sdk.Service.Exchange.{Exchanges, >>=-Exchanges, pure-IsSilent}
use clavenar_sdk.Agents.Client.{
  AgentsCodec, AgentsClient, Action, join, id_with_tenant, agent_path, get_json, post_json,
  list_url, state_text, grants_url,
}
use clavenar_sdk.Agents.Client
use clavenar_sdk.Agents.Tenants
use clavenar_sdk.Agents.Tenants.{tenant_path}
use clavenar_sdk.Agents.Authorized.{IsAuthorized}
use clavenar_sdk.Agents.Operations.{Operation, KeepsTenant, tenant_of, run}
use clavenar_sdk.Agents.Requests.{
  agent_get, agent_post, tenant_get, tenant_post, listed, list-Authorized, grants-Authorized,
  create-Authorized, headed,
}

module _ (p : Platform) (codec : AgentsCodec) {W : Type 0} (client : AgentsClient W) where
  -- Where the tenant does not go into the path as a dot segment: every call makes at most one
  -- exchange, of a request to a URL joined to the base, with the bearer where there is one and no
  -- other authorization, which names the tenant of the call in its query, its path or its body. A
  -- call that makes none fails and changes nothing, and one that succeeds was answered by a 200 or a
  -- 201.
  pub run-IsAuthorized :
      (o : Operation)
      → KeepsTenant o
      → Exchanges client.http
          (IsAuthorized p client.base_url (tenant_of o) client.bearer)
          IsDone
          (run p codec client o)
  unfolding run Client.list_orphans Client.get Client.list_active_grants Client.find_by_name
      Client.create Client.suspend Client.unsuspend Client.decommission Client.containment
      Client.clear_containment Client.envelope_narrow Client.envelope_widen Client.attestation_kinds
      Client.transfer_owner_team Client.record_certification Client.set_description
      Tenants.get_budget Tenants.set_budget Tenants.start_tenant_lifecycle Tenants.tenant_lifecycle
      Tenants.claim_tenant_lifecycle_step Tenants.complete_tenant_lifecycle_step
      Tenants.retry_tenant_lifecycle_step Tenants.offboard_tenant_effect
  run-IsAuthorized (Operation.list tenant filter) _ = list-Authorized p codec client tenant filter
  run-IsAuthorized (Operation.list_orphans tenant) _ =
      listed p codec client codec.parse_orphans "agents/orphans" tenant _ (λ url. refl)
        (λ url q. ([], ap (λ xs. xs ++ ("tenant", tenant) ∷ []) q))
  run-IsAuthorized (Operation.get id tenant) _ =
      listed p codec client codec.parse_agent _ tenant _ (λ url. refl)
        (λ url q. ([], ap (λ xs. xs ++ ("tenant", tenant) ∷ []) q))
  run-IsAuthorized (Operation.list_active_grants tenant agent_name) _ =
      grants-Authorized p codec client tenant agent_name
  run-IsAuthorized (Operation.find_by_name tenant agent_name) _ =
      >>=-Exchanges client.http _ IsDone _ _
        (list-Authorized p codec client tenant (record { state = none; owner_team = none }))
        (λ rows. pure-IsSilent _)
  run-IsAuthorized (Operation.create req) _ = create-Authorized p codec client req
  run-IsAuthorized (Operation.suspend id tenant reason) _ =
      agent_post p codec client codec.parse_lifecycle id "suspend" tenant _
  run-IsAuthorized (Operation.unsuspend id tenant reason) _ =
      agent_post p codec client codec.parse_lifecycle id "unsuspend" tenant _
  run-IsAuthorized (Operation.decommission id tenant reason) _ =
      agent_post p codec client codec.parse_lifecycle id "decommission" tenant _
  run-IsAuthorized (Operation.containment id tenant) _ =
      agent_get p codec client codec.parse_containment id "containment" tenant
  run-IsAuthorized (Operation.clear_containment id tenant reason) _ =
      agent_post p codec client codec.parse_containment id "containment/clear" tenant _
  run-IsAuthorized (Operation.envelope_narrow id tenant envelope) _ =
      agent_post p codec client codec.parse_agent id "envelope/narrow" tenant _
  run-IsAuthorized (Operation.envelope_widen id tenant envelope) _ =
      agent_post p codec client codec.parse_agent id "envelope/widen" tenant _
  run-IsAuthorized (Operation.attestation_kinds id tenant kinds) _ =
      agent_post p codec client codec.parse_agent id "attestation-kinds" tenant _
  run-IsAuthorized (Operation.transfer_owner_team id tenant new_team) _ =
      agent_post p codec client codec.parse_agent id "owner-team" tenant _
  run-IsAuthorized (Operation.record_certification id tenant req) _ =
      agent_post p codec client codec.parse_certificate id "certification" tenant _
  run-IsAuthorized (Operation.set_description id tenant text) _ =
      agent_post p codec client codec.parse_agent id "description" tenant _
  run-IsAuthorized (Operation.get_budget tenant) d =
      tenant_get p codec client codec.parse_budget tenant "/budget" _ d refl
  run-IsAuthorized (Operation.set_budget tenant budget_micros) d =
      tenant_post p codec client codec.parse_budget tenant "/budget" _ d refl _
  run-IsAuthorized (Operation.start_tenant_lifecycle tenant idempotency_key kind confirm reason) d =
      headed p codec client codec.parse_operation tenant "/lifecycle" _ d refl
        (header "Idempotency-Key" idempotency_key) _ (λ url. (refl, refl))
  run-IsAuthorized (Operation.tenant_lifecycle tenant operation_id) d =
      tenant_get p codec client codec.parse_operation tenant _ _ d (codes-append "/lifecycle/" _)
  run-IsAuthorized (Operation.claim_tenant_lifecycle_step tenant operation_id step_id owner) d =
      tenant_post p codec client codec.parse_claim tenant _ _ d (codes-append "/lifecycle/" _) _
  run-IsAuthorized (Operation.complete_tenant_lifecycle_step tenant operation_id step_id completion)
        d =
      tenant_post p codec client codec.parse_operation tenant _ _ d (codes-append "/lifecycle/" _) _
  run-IsAuthorized (Operation.retry_tenant_lifecycle_step tenant operation_id step_id) d =
      tenant_post p codec client codec.parse_operation tenant _ _ d (codes-append "/lifecycle/" _) _
  run-IsAuthorized (Operation.offboard_tenant_effect tenant confirm reason operation_id lease_token)
        d =
      headed p codec client codec.parse_offboard tenant "/offboard" _ d refl
        (λ r.
          header "X-Clavenar-Lifecycle-Lease" lease_token
            (header "X-Clavenar-Lifecycle-Operation" operation_id r))
        _ (λ url. (refl, refl))
