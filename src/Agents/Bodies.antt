-- ===== src/Agents/Bodies.antt =====
-- The JSON of the requests of src/agents.rs.
use clavenar_sdk.Prelude.{String, Option, List, [], ◌∷◌}
use clavenar_sdk.Json.{
  Value, Items, nil, cons, string, array, object, bool, number, pos_int, end, field,
}
use clavenar_sdk.Agents.{CreateAgentRequest}
use clavenar_sdk.Agents.Records.{
  TenantLifecycleKind, provision, offboard, TenantLifecycleStepOutcome, succeeded, retryable,
  manual_recovery, TenantLifecycleStepCompletion, CertificationCase, CertificationRequest,
  EnvelopeRequest, LifecycleRequest,
}
use clavenar_sdk.Service.Body.{strings, or_null, some_field, some_text}

abbrev pub kind_wire : TenantLifecycleKind → String
kind_wire provision = "provision"
kind_wire offboard = "offboard"

abbrev pub outcome_wire : TenantLifecycleStepOutcome → String
outcome_wire succeeded = "succeeded"
outcome_wire retryable = "retryable"
outcome_wire manual_recovery = "manual_recovery"

abbrev pub create_json : CreateAgentRequest → Value
create_json r = object (
    field "tenant" (string r.tenant) (
      field "agent_name" (string r.agent_name) (
        field "owner_team" (string r.owner_team) (
          field "scope_envelope" (array (strings r.scope_envelope)) (
            field "yellow_envelope" (array (strings r.yellow_envelope)) (
              field "attestation_kinds" (array (strings r.attestation_kinds)) (
                some_text "description" r.description (some_text "actor_sub" r.actor_sub end))))))))

abbrev pub envelope_json : EnvelopeRequest → Value
envelope_json r = object (
    field "scope_envelope" (array (strings r.scope_envelope)) (
      field "yellow_envelope" (array (strings r.yellow_envelope))
        (some_text "reason" r.reason end)))

abbrev pub reason_json : LifecycleRequest → Value
reason_json r = object (some_text "reason" r.reason end)

abbrev pub completion_json : TenantLifecycleStepCompletion → Value
completion_json c = object (
    field "lease_token" (string c.lease_token) (
      field "outcome" (string (outcome_wire c.outcome))
        (some_field "receipt" c.receipt (some_text "error" c.error end))))

abbrev pub case_json : CertificationCase → Value
case_json c = object (
    field "id" (string c.id) (
      field "category" (string c.category) (
        field "expected" (string c.expected)
          (field "observed" (string c.observed) (field "passed" (bool c.passed) end)))))

abbrev pub cases_json : List CertificationCase → Items
cases_json [] = nil
cases_json (c ∷ cs) = cons (case_json c) (cases_json cs)

abbrev pub certification_json : CertificationRequest → Value
certification_json r = object (
    field "sdk_version" (string r.sdk_version) (
      field "proxy_url" (string r.proxy_url) (
        field "catalog_sha256" (string r.catalog_sha256) (
          field "cases" (array (cases_json r.cases)) (
            field "total" (number (pos_int r.total))
              (field "passed" (number (pos_int r.passed)) end))))))

abbrev pub lifecycle_json : TenantLifecycleKind → String → String → Value
lifecycle_json kind confirm reason = object (
    field "confirm" (string confirm)
      (field "kind" (string (kind_wire kind)) (field "reason" (string reason) end)))

abbrev pub offboard_json : String → Option String → Value
offboard_json confirm reason =
    object (field "confirm" (string confirm) (field "reason" (or_null reason) end))
