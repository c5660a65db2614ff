-- ===== src/Tests/Registry.antt =====
-- Agents of src/agents.rs at concrete inputs.
use clavenar_sdk.Prelude.{◌≡◌, ◌↔◌, refl, [], ◌∷◌, none, some, true}
use clavenar_sdk.Agents.{
  suspended, AgentRecord, CreateAgentRequest, create_request_matches, same_set, dedup,
}
use clavenar_sdk.Agents.Matching.{IsMatch, create_request_matches_iff}
use clavenar_sdk.Json.Canonical.{insert_key, sort_keys}

abbrev request : CreateAgentRequest
request = record {
  tenant = "acme";
  agent_name = "mailer";
  owner_team = "ops";
  scope_envelope = "send" ∷ ("read" ∷ ("send" ∷ []));
  yellow_envelope = [];
  attestation_kinds = "tpm" ∷ [];
  description = some "new";
  actor_sub = none;
}

abbrev registered : AgentRecord
registered = record {
  id = "1";
  tenant = "acme";
  agent_name = "mailer";
  state = suspended;
  scope_envelope = "read" ∷ ("send" ∷ []);
  yellow_envelope = [];
  attestation_kinds_accepted = "tpm" ∷ [];
  created_by_sub = "";
  created_by_idp = "";
  owner_team = "ops";
  created_at = "";
  state_changed_at = "";
  state_changed_by = "";
  description = none;
  certified_at_version = none;
  certified_at = none;
}

create_request_matches_iff_example :
    (create_request_matches request registered ≡ true) ↔ IsMatch request registered
create_request_matches_iff_example = create_request_matches_iff request registered

matches : IsMatch request registered
unfolding create_request_matches same_set dedup sort_keys insert_key
matches = (create_request_matches_iff request registered).0 refl
