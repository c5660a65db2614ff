-- ===== src/Policies/Lab.antt =====
-- The miner and the templates of the policy engine (src/policies.rs).
use clavenar_sdk.Prelude.{ℕ, Bool, String, Option, List}
use clavenar_sdk.Json.{Value, Float}
use clavenar_sdk.Policies.Records.{BatchVerdict, BatchMode}

pub record MineLabReplay : Type 0 where
  pub allow_to_deny : ℕ
  pub allow_to_yellow : ℕ
  pub deny_to_allow : ℕ
  pub deny_to_yellow : ℕ
  pub yellow_to_allow : ℕ
  pub yellow_to_deny : ℕ
  pub unchanged : ℕ
  pub catalog_regressions : ℕ

pub record MineFlippedExample : Type 0 where
  pub correlation_id : Option String
  pub diff_label : String
  pub tool_type : String
  pub method : Option String
  pub agent_kind : String
  pub current_time : Option String
  pub intent_score : Float
  pub recent_request_count : ℕ
  pub before_reasons : List String
  pub after_reasons : List String

pub record MineCandidate : Type 0 where
  pub id : String
  pub kind : String
  pub rule_name : String
  pub one_liner : String
  pub rationale : Option String
  pub brain_enriched : Bool
  pub rego_body : String
  pub compile_ok : Bool
  pub evidence_count : ℕ
  pub score : Float
  pub lab_replay : MineLabReplay
  pub threshold : Value
  pub flipped_examples : List MineFlippedExample

pub record MineRequest : Type 0 where
  pub corpus : List Value
  pub historical_verdicts : List BatchVerdict
  pub max_candidates : ℕ
  pub ask_brain : Bool

pub record MineResponse : Type 0 where
  pub candidates : List MineCandidate
  pub corpus_size : ℕ
  pub candidates_dropped : ℕ
  pub evaluated_in_ms : ℕ

pub record MineError : Type 0 where
  pub message : String

pub record PolicyTemplate : Type 0 where
  pub name : String
  pub content_type : String
  pub domain : Option String
  pub severity : Option String
  pub frameworks : List String
  pub tags : List String
  pub tier : Option String
  pub tool_surface : List String
  pub summary : Option String
  pub installed : Bool

pub record PolicyTemplateDetail : Type 0 where
  pub template : PolicyTemplate
  pub body : String
  pub body_sha256 : String

pub record InstallTemplateRequest : Type 0 where
  pub reason : String
  pub actor_sub : String
  pub actor_idp : String

pub record LabTemplateRequest : Type 0 where
  pub mode : Option BatchMode
  pub replace_rule_name : Option String
  pub inputs : List Value
