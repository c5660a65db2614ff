-- ===== src/Brain/Records.antt =====
-- What the brain explains (src/brain.rs).
use clavenar_sdk.Prelude.{ℕ, String}
use clavenar_sdk.Json.{Value}

pub record ExplainPatternRequest : Type 0 where
  pub kind : String
  pub tool_type : String
  pub threshold : Value
  pub evidence_count : ℕ

pub record ExplainPatternResponse : Type 0 where
  pub one_liner : String
  pub rationale : String
