-- ===== src/Ledger/Analysis.antt =====
-- The analyses and meters of `LedgerClient` (src/ledger.rs).
use clavenar_sdk.Prelude.{ℕ, String, ◌<>◌, Option, none}
use clavenar_sdk.Prelude.Int.{ℤ}
use clavenar_sdk.Effects.{Run}
use clavenar_sdk.Error.{ClavenarError}
use clavenar_sdk.Platform.{Platform}
use clavenar_sdk.Records.{Uuid}
use clavenar_sdk.Service.Decimal.{show_nat, show_int}
use clavenar_sdk.Service.Text.{percent_text}
use clavenar_sdk.Ledger.Reports.{
  EnvelopeAnalysis, SilentAgentsReport, BehavioralBaseline, FleetBehavioralDiff,
  FleetBehavioralDiffScope, ModelUpgradeCanary, ModelUpgradeCanaryScope,
}
use clavenar_sdk.Ledger.Meters.{
  SpendRollup, ActiveAgentInvoice, ActiveAgentAdjustment, ActiveAgentAdjustmentKind,
  ActiveAgentAdjustmentReceipt,
}
use clavenar_sdk.Ledger.Query.{push_text}
use clavenar_sdk.Ledger.Client.{LedgerCodec, LedgerClient, get_json, post_json}

unfoldable pub new_adjustment :
    String → String → Uuid → ActiveAgentAdjustmentKind → ℤ → String → ActiveAgentAdjustment
new_adjustment tenant target_as_of idempotency_key kind units_delta reason = record {
  contract = "clavenar.active-agent-adjustment/v1";
  meter_version = "1.0.0";
  tenant = tenant;
  target_as_of = target_as_of;
  idempotency_key = idempotency_key;
  kind = kind;
  units_delta = units_delta;
  agent_key = none;
  reason = reason;
}

unfoldable pub for_agent : ActiveAgentAdjustment → String → ActiveAgentAdjustment
for_agent adjustment agent_key = record adjustment { agent_key = Option.some agent_key }

module _ (p : Platform) (codec : LedgerCodec) {W : Type 0} (client : LedgerClient W) where
  unfoldable pub envelope_analysis_for_tenant :
      String → ℕ → Option String → Run W ClavenarError EnvelopeAnalysis
  unfolding get_json
  envelope_analysis_for_tenant agent_id window_days tenant =
      get_json p client codec.parse_envelope (
        push_text "tenant" tenant (
          "analysis/agent-envelope-recommendations?agent_id="
          <> (percent_text agent_id <> ("&window_days=" <> show_nat window_days))))

  unfoldable pub envelope_analysis : String → ℕ → Run W ClavenarError EnvelopeAnalysis
  unfolding envelope_analysis_for_tenant
  envelope_analysis agent_id window_days = envelope_analysis_for_tenant agent_id window_days none

  unfoldable pub behavioral_baseline_for_tenant :
      String → ℕ → ℕ → Option String → Run W ClavenarError BehavioralBaseline
  unfolding get_json
  behavioral_baseline_for_tenant agent_id baseline_days recent_days tenant =
      get_json p client codec.parse_baseline (
        push_text "tenant" tenant (
          "analysis/agent-behavioral-baseline?agent_id="
          <> (percent_text agent_id
              <> ("&baseline_days="
                  <> (show_nat baseline_days <> ("&recent_days=" <> show_nat recent_days))))))

  unfoldable pub behavioral_baseline : String → ℕ → ℕ → Run W ClavenarError BehavioralBaseline
  unfolding behavioral_baseline_for_tenant
  behavioral_baseline agent_id baseline_days recent_days =
      behavioral_baseline_for_tenant agent_id baseline_days recent_days none

  unfoldable pub silent_agents_for_tenant :
      ℕ → Option String → Run W ClavenarError SilentAgentsReport
  unfolding get_json
  silent_agents_for_tenant since_hours tenant =
      get_json p client codec.parse_silent
        (push_text "tenant" tenant ("analysis/silent-agents?since_hours=" <> show_nat since_hours))

  unfoldable pub silent_agents : ℕ → Run W ClavenarError SilentAgentsReport
  unfolding silent_agents_for_tenant
  silent_agents since_hours = silent_agents_for_tenant since_hours none

  unfoldable pub fleet_behavioral_diff_scoped :
      ℕ → ℕ → ℤ → FleetBehavioralDiffScope → Run W ClavenarError FleetBehavioralDiff
  unfolding get_json
  fleet_behavioral_diff_scoped baseline_days recent_days limit scope =
      get_json p client codec.parse_fleet (
        push_text "tenant" scope.tenant (
          push_text "demo_session_token" scope.demo_session_token (
            "analysis/fleet-behavioral-diff?baseline_days="
            <> (show_nat baseline_days
                <> ("&recent_days=" <> (show_nat recent_days <> ("&limit=" <> show_int limit)))))))

  unfoldable pub fleet_behavioral_diff_for_tenant :
      ℕ → ℕ → ℤ → Option String → Run W ClavenarError FleetBehavioralDiff
  unfolding fleet_behavioral_diff_scoped
  fleet_behavioral_diff_for_tenant baseline_days recent_days limit tenant =
      fleet_behavioral_diff_scoped baseline_days recent_days limit
        (record { demo_session_token = none; tenant = tenant })

  unfoldable pub model_upgrade_canary_scoped :
      Option String → ℕ → ModelUpgradeCanaryScope → Run W ClavenarError ModelUpgradeCanary
  unfolding get_json
  model_upgrade_canary_scoped cutover window_hours scope = get_json p client codec.parse_canary (
      push_text "tenant" scope.tenant (
        push_text "demo_session_token" scope.demo_session_token (
          push_text "cutover" cutover
            ("analysis/model-upgrade-canary?window_hours=" <> show_nat window_hours))))

  unfoldable pub model_upgrade_canary_for_tenant :
      Option String → ℕ → Option String → Run W ClavenarError ModelUpgradeCanary
  unfolding model_upgrade_canary_scoped
  model_upgrade_canary_for_tenant cutover window_hours tenant =
      model_upgrade_canary_scoped cutover window_hours
        (record { demo_session_token = none; tenant = tenant })

  unfoldable pub finops_spend : Option String → Option String → ℤ → Run W ClavenarError SpendRollup
  unfolding get_json
  finops_spend window tenant limit = get_json p client codec.parse_spend (
      push_text "tenant" tenant
        (push_text "window" window ("finops/spend?limit=" <> show_int limit)))

  unfoldable pub active_agent_invoice :
      String → String → String → Run W ClavenarError ActiveAgentInvoice
  unfolding get_json
  active_agent_invoice tenant as_of observed_through = get_json p client codec.parse_invoice (
      "finops/active-agents?tenant="
      <> (percent_text tenant
          <> ("&as_of="
              <> (percent_text as_of <> ("&observed_through=" <> percent_text observed_through)))))

  unfoldable pub create_active_agent_adjustment :
      ActiveAgentAdjustment → Run W ClavenarError ActiveAgentAdjustmentReceipt
  unfolding post_json
  create_active_agent_adjustment adjustment =
      post_json p client codec.parse_adjusted "finops/active-agents/adjustments"
        (codec.adjustment_json adjustment)
