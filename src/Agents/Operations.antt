-- ===== src/Agents/Operations.antt =====
-- Every call of `AgentsClient` (src/agents.rs) as one type, for statements about all of them.
use clavenar_sdk.Prelude.{◌≢◌, String, Option, List}
use clavenar_sdk.Prelude.Int.{ℤ}
use clavenar_sdk.Platform.{Platform}
use clavenar_sdk.Agents.{AgentRecord, CreateAgentRequest}
use clavenar_sdk.Agents.Records.{
  TenantBudget, TenantOffboardResult, TenantLifecycleKind, TenantLifecycleOperation,
  TenantLifecycleStepClaim, TenantLifecycleStepCompletion, CertificationRequest, SignedCertificate,
  AgentListFilter, OrphanWorkload, AgentCreated, EnvelopeRequest, LifecycleResponse,
  ContainmentStatus, GrantConsumption,
}
use clavenar_sdk.Agents.Client
use clavenar_sdk.Agents.Client.{AgentsCodec, AgentsClient, Action}
use clavenar_sdk.Agents.Tenants

pub data Operation : Type 0 where
  list : String → AgentListFilter → Operation
  list_orphans : String → Operation
  get : String → String → Operation
  list_active_grants : String → String → Operation
  find_by_name : String → String → Operation
  create : CreateAgentRequest → Operation
  suspend : String → String → Option String → Operation
  unsuspend : String → String → Option String → Operation
  decommission : String → String → Option String → Operation
  containment : String → String → Operation
  clear_containment : String → String → Option String → Operation
  envelope_narrow : String → String → EnvelopeRequest → Operation
  envelope_widen : String → String → EnvelopeRequest → Operation
  attestation_kinds : String → String → List String → Operation
  transfer_owner_team : String → String → String → Operation
  record_certification : String → String → CertificationRequest → Operation
  set_description : String → String → Option String → Operation
  get_budget : String → Operation
  set_budget : String → ℤ → Operation
  start_tenant_lifecycle : String → String → TenantLifecycleKind → String → String → Operation
  tenant_lifecycle : String → String → Operation
  claim_tenant_lifecycle_step : String → String → String → String → Operation
  complete_tenant_lifecycle_step :
      String → String → String → TenantLifecycleStepCompletion → Operation
  retry_tenant_lifecycle_step : String → String → String → Operation
  offboard_tenant_effect : String → String → Option String → String → String → Operation

abbrev pub Answer : Operation → Type 0
Answer (list _ _) = List AgentRecord
Answer (list_orphans _) = List OrphanWorkload
Answer (get _ _) = AgentRecord
Answer (list_active_grants _ _) = List GrantConsumption
Answer (find_by_name _ _) = Option AgentRecord
Answer (create _) = AgentCreated
Answer (suspend _ _ _) = LifecycleResponse
Answer (unsuspend _ _ _) = LifecycleResponse
Answer (decommission _ _ _) = LifecycleResponse
Answer (containment _ _) = ContainmentStatus
Answer (clear_containment _ _ _) = ContainmentStatus
Answer (envelope_narrow _ _ _) = AgentRecord
Answer (envelope_widen _ _ _) = AgentRecord
Answer (attestation_kinds _ _ _) = AgentRecord
Answer (transfer_owner_team _ _ _) = AgentRecord
Answer (record_certification _ _ _) = SignedCertificate
Answer (set_description _ _ _) = AgentRecord
Answer (get_budget _) = TenantBudget
Answer (set_budget _ _) = TenantBudget
Answer (start_tenant_lifecycle _ _ _ _ _) = TenantLifecycleOperation
Answer (tenant_lifecycle _ _) = TenantLifecycleOperation
Answer (claim_tenant_lifecycle_step _ _ _ _) = TenantLifecycleStepClaim
Answer (complete_tenant_lifecycle_step _ _ _ _) = TenantLifecycleOperation
Answer (retry_tenant_lifecycle_step _ _ _) = TenantLifecycleOperation
Answer (offboard_tenant_effect _ _ _ _ _) = TenantOffboardResult

-- A text that stays a segment of a path when a URL is joined.
abbrev pub IsSegment : String → Type 0
IsSegment s = (s ≢ ".") × (s ≢ "..")

-- The calls on a tenant put it into the path, where it has to stay a segment.
abbrev pub KeepsTenant : Operation → Type 0
KeepsTenant (get_budget tenant) = IsSegment tenant
KeepsTenant (set_budget tenant _) = IsSegment tenant
KeepsTenant (start_tenant_lifecycle tenant _ _ _ _) = IsSegment tenant
KeepsTenant (tenant_lifecycle tenant _) = IsSegment tenant
KeepsTenant (claim_tenant_lifecycle_step tenant _ _ _) = IsSegment tenant
KeepsTenant (complete_tenant_lifecycle_step tenant _ _ _) = IsSegment tenant
KeepsTenant (retry_tenant_lifecycle_step tenant _ _) = IsSegment tenant
KeepsTenant (offboard_tenant_effect tenant _ _ _ _) = IsSegment tenant
KeepsTenant _ = Unit

-- The tenant that the call is for.
abbrev pub tenant_of : Operation → String
tenant_of (list tenant _) = tenant
tenant_of (list_orphans tenant) = tenant
tenant_of (get _ tenant) = tenant
tenant_of (list_active_grants tenant _) = tenant
tenant_of (find_by_name tenant _) = tenant
tenant_of (create req) = req.tenant
tenant_of (suspend _ tenant _) = tenant
tenant_of (unsuspend _ tenant _) = tenant
tenant_of (decommission _ tenant _) = tenant
tenant_of (containment _ tenant) = tenant
tenant_of (clear_containment _ tenant _) = tenant
tenant_of (envelope_narrow _ tenant _) = tenant
tenant_of (envelope_widen _ tenant _) = tenant
tenant_of (attestation_kinds _ tenant _) = tenant
tenant_of (transfer_owner_team _ tenant _) = tenant
tenant_of (record_certification _ tenant _) = tenant
tenant_of (set_description _ tenant _) = tenant
tenant_of (get_budget tenant) = tenant
tenant_of (set_budget tenant _) = tenant
tenant_of (start_tenant_lifecycle tenant _ _ _ _) = tenant
tenant_of (tenant_lifecycle tenant _) = tenant
tenant_of (claim_tenant_lifecycle_step tenant _ _ _) = tenant
tenant_of (complete_tenant_lifecycle_step tenant _ _ _) = tenant
tenant_of (retry_tenant_lifecycle_step tenant _ _) = tenant
tenant_of (offboard_tenant_effect tenant _ _ _ _) = tenant

module _ (p : Platform) (codec : AgentsCodec) {W : Type 0} (client : AgentsClient W) where
  unfoldable pub run : (o : Operation) → Action p codec client (Answer o)
  run (list tenant filter) = Client.list p codec client tenant filter
  run (list_orphans tenant) = Client.list_orphans p codec client tenant
  run (get id tenant) = Client.get p codec client id tenant
  run (list_active_grants tenant agent_name) =
      Client.list_active_grants p codec client tenant agent_name
  run (find_by_name tenant agent_name) = Client.find_by_name p codec client tenant agent_name
  run (create req) = Client.create p codec client req
  run (suspend id tenant reason) = Client.suspend p codec client id tenant reason
  run (unsuspend id tenant reason) = Client.unsuspend p codec client id tenant reason
  run (decommission id tenant reason) = Client.decommission p codec client id tenant reason
  run (containment id tenant) = Client.containment p codec client id tenant
  run (clear_containment id tenant reason) =
      Client.clear_containment p codec client id tenant reason
  run (envelope_narrow id tenant envelope) =
      Client.envelope_narrow p codec client id tenant envelope
  run (envelope_widen id tenant envelope) = Client.envelope_widen p codec client id tenant envelope
  run (attestation_kinds id tenant kinds) = Client.attestation_kinds p codec client id tenant kinds
  run (transfer_owner_team id tenant new_team) =
      Client.transfer_owner_team p codec client id tenant new_team
  run (record_certification id tenant req) =
      Client.record_certification p codec client id tenant req
  run (set_description id tenant text) = Client.set_description p codec client id tenant text
  run (get_budget tenant) = Tenants.get_budget p codec client tenant
  run (set_budget tenant budget_micros) = Tenants.set_budget p codec client tenant budget_micros
  run (start_tenant_lifecycle tenant idempotency_key kind confirm reason) =
      Tenants.start_tenant_lifecycle p codec client tenant idempotency_key kind confirm reason
  run (tenant_lifecycle tenant operation_id) =
      Tenants.tenant_lifecycle p codec client tenant operation_id
  run (claim_tenant_lifecycle_step tenant operation_id step_id owner) =
      Tenants.claim_tenant_lifecycle_step p codec client tenant operation_id step_id owner
  run (complete_tenant_lifecycle_step tenant operation_id step_id completion) =
      Tenants.complete_tenant_lifecycle_step p codec client tenant operation_id step_id completion
  run (retry_tenant_lifecycle_step tenant operation_id step_id) =
      Tenants.retry_tenant_lifecycle_step p codec client tenant operation_id step_id
  run (offboard_tenant_effect tenant confirm reason operation_id lease_token) =
      Tenants.offboard_tenant_effect p codec client tenant confirm reason operation_id lease_token
