-- ===== src/Ledger/Reports.antt =====
-- The analyses of the audit ledger (src/ledger.rs). Times are their RFC 3339
-- texts.
use clavenar_sdk.Prelude.{ℕ, Bool, String, Option, List}
use clavenar_sdk.Prelude.Int.{ℤ}
use clavenar_sdk.Json.{Float}

pub record ToolUsage : Type 0 where
  pub tool_type : String
  pub used_count : ℤ
  pub confidence : String

pub record EnvelopeAnalysis : Type 0 where
  pub agent_id : String
  pub window_days : ℤ
  pub since : String
  pub until : String
  pub total_calls : ℤ
  pub used_tools : List ToolUsage

pub record SilentAgent : Type 0 where
  pub agent_name : String
  pub tenant : Option String
  pub last_activity : Option String
  pub enrolled_at : String
  pub silent_hours : ℤ
  pub never_active : Bool

pub record SilentAgentsReport : Type 0 where
  pub threshold_hours : ℤ
  pub generated_at : String
  pub silent_agents : List SilentAgent
  pub active_total : ℕ

pub record ToolShare : Type 0 where
  pub tool_type : String
  pub count : ℤ

pub record BaselineWindowProfile : Type 0 where
  pub since : String
  pub until : String
  pub total : ℤ
  pub authorized : ℤ
  pub denied : ℤ
  pub deny_rate : Float
  pub intent_mean : Float
  pub tool_mix : List ToolShare
  pub hourly : List ℤ

pub record BaselineDeviation : Type 0 where
  pub tool_mix : Float
  pub hourly : Float
  pub intent : Float
  pub deny_rate : Float
  pub overall : Float

pub record WindowDiff : Type 0 where
  pub new_tools : List String
  pub vanished_tools : List String
  pub deny_rate_delta : Float
  pub intent_delta : Float
  pub total_delta : ℤ

pub record BehavioralBaseline : Type 0 where
  pub agent_id : String
  pub baseline_days : ℤ
  pub recent_days : ℤ
  pub baseline : BaselineWindowProfile
  pub recent : BaselineWindowProfile
  pub deviation : BaselineDeviation
  pub diff : WindowDiff
  pub drifted : Bool
  pub insufficient : Bool

pub record FleetDiffRow : Type 0 where
  pub agent_id : String
  pub recent_total : ℤ
  pub baseline_total : ℤ
  pub deny_rate_delta : Float
  pub intent_delta : Float
  pub total_delta : ℤ
  pub new_tools : List String
  pub vanished_tools : List String
  pub drift_overall : Float
  pub drifted : Bool
  pub insufficient : Bool

pub record FleetBehavioralDiff : Type 0 where
  pub baseline_days : ℤ
  pub recent_days : ℤ
  pub since_baseline : String
  pub since_recent : String
  pub now : String
  pub agents : List FleetDiffRow
  pub returned : ℤ

pub record FleetBehavioralDiffScope : Type 0 where
  pub demo_session_token : Option String
  pub tenant : Option String

pub record CanarySignalShare : Type 0 where
  pub signal : String
  pub count : ℤ

pub record CanaryModel : Type 0 where
  pub brain_version : String
  pub mock_mode : Bool
  pub provider_models : List (String × String)
  pub observed : ℤ

pub record CanaryWindow : Type 0 where
  pub since : String
  pub until : String
  pub total : ℤ
  pub authorized : ℤ
  pub denied : ℤ
  pub deny_rate : Float
  pub intent_mean : Float
  pub signal_mix : List CanarySignalShare
  pub models : List CanaryModel
  pub models_sampled : ℤ

pub record CanaryDeltas : Type 0 where
  pub deny_rate_delta : Float
  pub intent_mean_delta : Float
  pub total_delta : ℤ
  pub new_signals : List String
  pub vanished_signals : List String

pub record ModelUpgradeCanary : Type 0 where
  pub cutover : String
  pub window_hours : ℤ
  pub before : CanaryWindow
  pub after : CanaryWindow
  pub deltas : CanaryDeltas
  pub model_changed : Bool
  pub insufficient : Bool

pub record ModelUpgradeCanaryScope : Type 0 where
  pub demo_session_token : Option String
  pub tenant : Option String

pub record HuntAgentRollup : Type 0 where
  pub agent_id : String
  pub agent_name : Option String
  pub hit_count : ℤ
  pub deny_count : ℤ
  pub worst_signal : Option String
  pub latest_hit_ts : String
  pub latest_correlation_id : Option String
  pub methods : List String

pub record HuntResult : Type 0 where
  pub agents : List HuntAgentRollup
  pub returned : ℤ
  pub from : Option String
  pub to : Option String
