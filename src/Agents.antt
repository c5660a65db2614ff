-- ===== src/Agents.antt =====
-- The agent registry's data and its comparisons (src/agents.rs).
pub mod Matching
pub mod Records
pub mod Bodies
pub mod Client
pub mod Tenants
pub mod Operations
pub mod Authorized
pub mod Requests
pub mod Calls
use clavenar_sdk.Prelude.{
  Bool, true, false, not, ◌&&◌, ◌||◌, String, Option, none, some, List, [], ◌∷◌, ◌==◌, ◌/=◌,
  string_eq, if◌then◌else◌,
}
use clavenar_sdk.Json.Canonical.{sort_keys}
use clavenar_sdk.Records.Equality.{strings_eq}

pub data AgentState : Type 0 where
  active suspended decommissioned : AgentState

unfoldable pub as_wire : AgentState → String
as_wire active = "active"
as_wire suspended = "suspended"
as_wire decommissioned = "decommissioned"

unfoldable pub parse : String → Option AgentState
parse s =
    if s == "active" || s == "Active"
    then some active
    else if s == "suspended" || s == "Suspended"
    then some suspended
    else if s == "decommissioned" || s == "Decommissioned"
    then some decommissioned
    else none

pub record AgentRecord : Type 0 where
  pub id : String
  pub tenant : String
  pub agent_name : String
  pub state : AgentState
  pub scope_envelope : List String
  pub yellow_envelope : List String
  pub attestation_kinds_accepted : List String
  pub created_by_sub : String
  pub created_by_idp : String
  pub owner_team : String
  pub created_at : String
  pub state_changed_at : String
  pub state_changed_by : String
  pub description : Option String
  pub certified_at_version : Option String
  pub certified_at : Option String

pub record CreateAgentRequest : Type 0 where
  pub tenant : String
  pub agent_name : String
  pub owner_team : String
  pub scope_envelope : List String
  pub yellow_envelope : List String
  pub attestation_kinds : List String
  pub description : Option String
  pub actor_sub : Option String

-- `Vec::dedup`: of equal neighbours one is left.
unfoldable pub dedup : List String → List String
dedup [] = []
dedup (s ∷ []) = s ∷ []
dedup (s ∷ (t ∷ ts)) = let rest = dedup (t ∷ ts) in if s == t then rest else s ∷ rest

unfoldable pub same_set : List String → List String → Bool
unfolding dedup
same_set a b = dedup (sort_keys a) == dedup (sort_keys b)

unfoldable pub create_request_matches : CreateAgentRequest → AgentRecord → Bool
unfolding same_set
create_request_matches req record' =
    if req.tenant /= record'.tenant
      || (req.agent_name /= record'.agent_name || req.owner_team /= record'.owner_team)
    then false
    else if not (same_set req.scope_envelope record'.scope_envelope)
        || (not (same_set req.yellow_envelope record'.yellow_envelope)
            || not (same_set req.attestation_kinds record'.attestation_kinds_accepted))
    then false
    else true

-- The filter of `first_named`, over the rows that `list` returned.
unfoldable pub first_named : List AgentRecord → String → Option AgentRecord
first_named [] name = none
first_named (r ∷ rows) name =
    let rest = first_named rows name in if r.agent_name == name then some r else rest
