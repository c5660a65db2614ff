-- ===== src/Agents/Client.antt =====
-- `AgentsClient` of src/agents.rs: the calls of the agent registry.
use clavenar_sdk.Prelude.{ℕ, zero, suc, String, ◌<>◌, Bool, Option, none, some, List, is_some}
use clavenar_sdk.Effects.{Result, Run, pure, lift, ◌>>=◌}
use clavenar_sdk.Error.{ClavenarError}
use clavenar_sdk.Json.{Value, array, object, end, field}
use clavenar_sdk.Http.BaseUrl.{UrlApi}
use clavenar_sdk.Http.Provider.{connect}
use clavenar_sdk.Platform.{Platform}
use clavenar_sdk.Agents.{AgentState, AgentRecord, CreateAgentRequest, as_wire, first_named}
use clavenar_sdk.Agents.Records.{
  TenantBudget, TenantOffboardResult, TenantLifecycleOperation, TenantLifecycleStepClaim,
  CertificationRequest, SignedCertificate, AgentListFilter, OrphanWorkload, AgentCreated,
  EnvelopeRequest, LifecycleResponse, ContainmentStatus, GrantConsumption, GrantsResponse,
}
use clavenar_sdk.Service.{
  Url, Method, json, no_body, Provider, request, with_auth, append_pair, append_some, map_url,
  join_as, perform,
}
use clavenar_sdk.Service.Body.{strings, or_null, single}
use clavenar_sdk.Service.Text.{percent_text}
use clavenar_sdk.Agents.Bodies.{create_json, envelope_json, reason_json, certification_json}

-- serde's parsers of the answers, with the errors' texts.
pub record AgentsCodec : Type 0 where
  pub parse_rows : String → Result String (List AgentRecord)
  pub parse_orphans : String → Result String (List OrphanWorkload)
  pub parse_agent : String → Result String AgentRecord
  pub parse_grants : String → Result String GrantsResponse
  pub parse_created : String → Result String AgentCreated
  pub parse_lifecycle : String → Result String LifecycleResponse
  pub parse_containment : String → Result String ContainmentStatus
  pub parse_certificate : String → Result String SignedCertificate
  pub parse_budget : String → Result String TenantBudget
  pub parse_operation : String → Result String TenantLifecycleOperation
  pub parse_claim : String → Result String TenantLifecycleStepClaim
  pub parse_offboard : String → Result String TenantOffboardResult

pub record AgentsClient (W : Type 0) : Type 0 where
  pub base_url : String
  pub http : Provider W
  pub bearer : Option String

pub new :
    {W U : Type 0}
    → UrlApi U
    → (U → String)
    → (ℕ → ℕ → Result String (Provider W))
    → String
    → Run (Option (Provider W)) ClavenarError (AgentsClient W)
new api text build base_url = do
  parts ← connect api text build base_url
  pure (record { base_url = parts.0; http = parts.1; bearer = none })

abbrev with_http_provider : {W : Type 0} → AgentsClient W → Provider W → AgentsClient W
with_http_provider client provider = record client { http = provider }

abbrev with_bearer : {W : Type 0} → AgentsClient W → String → AgentsClient W
with_bearer client token = record client { bearer = some token }

abbrev has_bearer : {W : Type 0} → AgentsClient W → Bool
has_bearer client = is_some client.bearer

-- The first characters of a text.
abbrev first_chars : ℕ → String → String
first_chars zero s = String.[]
first_chars (suc n) String.[] = String.[]
first_chars (suc n) (String.◌∷◌ c s) = String.◌∷◌ c (first_chars n s)

-- The first four bytes of the digest, in lower-case hexadecimal.
abbrev fingerprint_of : Platform → Option String → Option String
fingerprint_of p none = none
fingerprint_of p (some token) = some (first_chars 8 (p.sha256_hex token))

pub bearer_fingerprint : Platform → {W : Type 0} → AgentsClient W → Option String
bearer_fingerprint p client = fingerprint_of p client.bearer

module _ (p : Platform) (codec : AgentsCodec) {W : Type 0} (client : AgentsClient W) where
  abbrev pub Action : Type 0 → Type 0
  Action A = Run W ClavenarError A

  unfoldable pub join : String → Result ClavenarError Url
  join suffix = join_as p suffix client.base_url suffix

  abbrev pub agent_path : String → String → String
  agent_path id verb = "agents/" <> (percent_text id <> ("/" <> verb))

  unfoldable pub id_with_tenant : String → String → String → Result ClavenarError Url
  id_with_tenant id verb tenant =
      map_url (append_pair "tenant" tenant)
        (join_as p (agent_path id verb) client.base_url (agent_path id verb))

  unfoldable pub get_json : {A : Type 0} → (String → Result String A) → Url → Action A
  get_json parse url =
      perform p client.http parse (with_auth client.bearer (request Method.get url no_body))

  unfoldable pub post_json : {A : Type 0} → (String → Result String A) → Url → Value → Action A
  post_json parse url body =
      perform p client.http parse (with_auth client.bearer (request Method.post url (json body)))

  abbrev pub state_text : Option AgentState → Option String
  state_text none = none
  state_text (some state) = some (as_wire state)

  abbrev pub list_url : String → AgentListFilter → Url → Url
  list_url tenant filter url =
      append_some "owner_team" filter.owner_team
        (append_some "state" (state_text filter.state) (append_pair "tenant" tenant url))

  unfoldable pub list : String → AgentListFilter → Action (List AgentRecord)
  unfolding get_json
  list tenant filter = do
    url ← lift (join_as p "agents" client.base_url "agents")
    get_json codec.parse_rows (list_url tenant filter url)

  unfoldable pub list_orphans : String → Action (List OrphanWorkload)
  unfolding get_json
  list_orphans tenant = do
    url ← lift (join_as p "agents/orphans" client.base_url "agents/orphans")
    get_json codec.parse_orphans (append_pair "tenant" tenant url)

  unfoldable pub get : String → String → Action AgentRecord
  unfolding get_json
  get id tenant = do
    url ←
        lift
          (join_as p ("agents/" <> percent_text id) client.base_url ("agents/" <> percent_text id))
    get_json codec.parse_agent (append_pair "tenant" tenant url)

  abbrev pub grants_url : String → String → Url → Url
  grants_url tenant agent_name url =
      append_pair "active" "true"
        (append_pair "agent_name" agent_name (append_pair "tenant" tenant url))

  unfoldable pub list_active_grants : String → String → Action (List GrantConsumption)
  unfolding get_json
  list_active_grants tenant agent_name = do
    url ← lift (join_as p "grants" client.base_url "grants")
    resp ← get_json codec.parse_grants (grants_url tenant agent_name url)
    pure resp.grants

  abbrev default_filter : AgentListFilter
  default_filter = record { state = none; owner_team = none }

  unfoldable pub find_by_name : String → String → Action (Option AgentRecord)
  unfolding list
  find_by_name tenant agent_name = do
    rows ← list tenant default_filter
    pure (first_named rows agent_name)

  unfoldable pub create : CreateAgentRequest → Action AgentCreated
  unfolding join post_json
  create req = do url ← lift (join "agents"); post_json codec.parse_created url (create_json req)

  -- A call of one agent's sub-resource, with its tenant.
  unfoldable pub lifecycle_call :
      String → String → String → Option String → Action LifecycleResponse
  unfolding id_with_tenant post_json
  lifecycle_call id tenant verb reason = do
    url ← lift (id_with_tenant id verb tenant)
    post_json codec.parse_lifecycle url (reason_json (record { reason = reason }))

  unfoldable pub suspend : String → String → Option String → Action LifecycleResponse
  unfolding lifecycle_call
  suspend id tenant reason = lifecycle_call id tenant "suspend" reason

  unfoldable pub unsuspend : String → String → Option String → Action LifecycleResponse
  unfolding lifecycle_call
  unsuspend id tenant reason = lifecycle_call id tenant "unsuspend" reason

  unfoldable pub decommission : String → String → Option String → Action LifecycleResponse
  unfolding lifecycle_call
  decommission id tenant reason = lifecycle_call id tenant "decommission" reason

  unfoldable pub containment : String → String → Action ContainmentStatus
  unfolding id_with_tenant get_json
  containment id tenant = do
    url ← lift (id_with_tenant id "containment" tenant)
    get_json codec.parse_containment url

  unfoldable pub clear_containment : String → String → Option String → Action ContainmentStatus
  unfolding id_with_tenant post_json
  clear_containment id tenant reason = do
    url ← lift (id_with_tenant id "containment/clear" tenant)
    post_json codec.parse_containment url (reason_json (record { reason = reason }))

  unfoldable pub envelope_narrow : String → String → EnvelopeRequest → Action AgentRecord
  unfolding id_with_tenant post_json
  envelope_narrow id tenant envelope = do
    url ← lift (id_with_tenant id "envelope/narrow" tenant)
    post_json codec.parse_agent url (envelope_json envelope)

  unfoldable pub envelope_widen : String → String → EnvelopeRequest → Action AgentRecord
  unfolding id_with_tenant post_json
  envelope_widen id tenant envelope = do
    url ← lift (id_with_tenant id "envelope/widen" tenant)
    post_json codec.parse_agent url (envelope_json envelope)

  unfoldable pub attestation_kinds : String → String → List String → Action AgentRecord
  unfolding id_with_tenant post_json
  attestation_kinds id tenant kinds = do
    url ← lift (id_with_tenant id "attestation-kinds" tenant)
    post_json codec.parse_agent url (object (field "attestation_kinds" (array (strings kinds)) end))

  unfoldable pub transfer_owner_team : String → String → String → Action AgentRecord
  unfolding id_with_tenant post_json
  transfer_owner_team id tenant new_team = do
    url ← lift (id_with_tenant id "owner-team" tenant)
    post_json codec.parse_agent url (single "owner_team" new_team)

  unfoldable pub set_description : String → String → Option String → Action AgentRecord
  unfolding id_with_tenant post_json
  set_description id tenant text = do
    url ← lift (id_with_tenant id "description" tenant)
    post_json codec.parse_agent url (object (field "description" (or_null text) end))

  unfoldable pub record_certification :
      String → String → CertificationRequest → Action SignedCertificate
  unfolding id_with_tenant post_json
  record_certification id tenant req = do
    url ← lift (id_with_tenant id "certification" tenant)
    post_json codec.parse_certificate url (certification_json req)
