-- ===== src/Tests/Services.antt =====
-- The clients of the services (src/agents.rs, src/hil.rs, src/ledger.rs, src/policies.rs and
-- src/sim.rs) against a server that answers every request and keeps the requests, the newest first.
use clavenar_sdk.Prelude.{ℕ, ◌≡◌, refl, true, false, none, some, List, [], ◌∷◌, length, ◌≤◌}
use clavenar_sdk.Prelude.Int.{pos, negsuc}
use clavenar_sdk.Effects.{ok, err}
use clavenar_sdk.Json.{null}
use clavenar_sdk.Agents.Client.{AgentsCodec, AgentsClient}
use clavenar_sdk.Agents.Authorized.{IsAuthorized}
use clavenar_sdk.Agents.Calls.{run-IsAuthorized}
use clavenar_sdk.Agents.Operations
use clavenar_sdk.Agents.Operations.{IsSegment}
use clavenar_sdk.Hil.Client.{HilCodec, HilClient}
use clavenar_sdk.Hil.Credentialed.{IsDecision, IsSuccess, decide-IsDecision}
use clavenar_sdk.Hil.Decide.{bearer, decide}
use clavenar_sdk.Hil.Records.{DecideRequest, approve, operator_mtls}
use clavenar_sdk.Http.{binary_response_body_limit}
use clavenar_sdk.Ledger.Client.{LedgerCodec, LedgerClient}
use clavenar_sdk.Ledger.Cases.{regulatory_export}
use clavenar_sdk.Ledger.Export.{IsExport, regulatory_export-IsExport}
use clavenar_sdk.Ledger.Filters.{Reads, append_query-reads}
use clavenar_sdk.Ledger.Reading.{fields}
use clavenar_sdk.Ledger.Query.{append_query}
use clavenar_sdk.Ledger.Records.{AuditFilterParams, RegulatoryExportOptions}
use clavenar_sdk.Policies.Client.{PoliciesCodec, PoliciesClient}
use clavenar_sdk.Policies.Operations as PolicyOperations
use clavenar_sdk.Policies.Scoped.{IsScoped, run-IsScoped}
use clavenar_sdk.Service.{Request, Reply, Provider, is_success}
use clavenar_sdk.Service.Authorization.{IsDone}
use clavenar_sdk.Service.Exchange.{Exchanges}
use clavenar_sdk.Simulator.Attributed
use clavenar_sdk.Simulator.Attributed.{IsAttributed, run-IsAttributed}
use clavenar_sdk.Simulator.Client.{SimCodec, SimClient}
use clavenar_sdk.Tests.World.{platform}

abbrev answer : Reply
answer = record {
  response = record { status = 200; content_length = none; chunks = ok (1 ∷ []) ∷ [] };
  headers = [];
}

abbrev server : Provider (List Request)
server r log = (ok answer, r ∷ log)

abbrev filter : AuditFilterParams
filter = record {
  seq_from = some (pos 120);
  seq_to = some (negsuc 0);
  from = none;
  to = none;
  methods = "tools/call" ∷ "  " ∷ "a,b" ∷ [];
  original_method = none;
  reason = some "x&y=z";
  verdict = none;
  brain_delta = none;
}

queried :
    append_query filter "audit/a?limit=1"
    ≡ "audit/a?limit=1&seq_from=120&seq_to=-1&methods=tools%2Fcall,a%2Cb&reason=x%26y%3Dz"
unfolding append_query clavenar_sdk.Service.Text.percent_text clavenar_sdk.Service.Decimal.show_int
queried = refl

append_query-reads_example :
    Reads "audit/a?limit=1" (append_query filter "audit/a?limit=1") (fields filter)
append_query-reads_example = append_query-reads filter "audit/a?limit=1"

abbrev agents_codec : AgentsCodec
agents_codec = record {
  parse_rows = λ raw. err "unexpected";
  parse_orphans = λ raw. err "unexpected";
  parse_agent = λ raw. err "unexpected";
  parse_grants = λ raw. err "unexpected";
  parse_created = λ raw. err "unexpected";
  parse_lifecycle = λ raw. err "unexpected";
  parse_containment = λ raw. err "unexpected";
  parse_certificate = λ raw. err "unexpected";
  parse_budget = λ raw. err "unexpected";
  parse_operation = λ raw. err "unexpected";
  parse_claim = λ raw. err "unexpected";
  parse_offboard = λ raw. err "unexpected";
}

abbrev hil_codec : HilCodec
hil_codec = record {
  parse_receipt = λ raw. err "unexpected";
  parse_hold = λ raw. err "unexpected";
  parse_pending = λ raw. err "unexpected";
  parse_rows = λ raw. err "unexpected";
  parse_link = λ raw. err "unexpected";
  parse_channels = λ raw. err "unexpected";
  parse_stats = λ raw. err "unexpected";
  parse_identities = λ raw. err "unexpected";
  lifecycle_json = λ body. null;
  legal_hold_json = λ body. null;
  principal_hex = λ claim. claim.tenant;
}

abbrev ledger_codec : LedgerCodec
ledger_codec = record {
  parse_entries = λ raw. err "unexpected";
  parse_count = λ raw. err "unexpected";
  parse_verify = λ raw. err "unexpected";
  parse_agents = λ raw. err "unexpected";
  parse_lifecycle = λ raw. err "unexpected";
  parse_masked = λ raw. err "unexpected";
  parse_corpus = λ raw. err "unexpected";
  parse_envelope = λ raw. err "unexpected";
  parse_baseline = λ raw. err "unexpected";
  parse_silent = λ raw. err "unexpected";
  parse_fleet = λ raw. err "unexpected";
  parse_canary = λ raw. err "unexpected";
  parse_hunt = λ raw. err "unexpected";
  parse_spend = λ raw. err "unexpected";
  parse_invoice = λ raw. err "unexpected";
  parse_adjusted = λ raw. err "unexpected";
  parse_exports = λ raw. err "unexpected";
  parse_outcome = λ raw. err "unexpected";
  parse_register = λ raw. err "unexpected";
  parse_case_row = λ raw. err "unexpected";
  parse_cases = λ raw. err "unexpected";
  parse_case = λ raw. err "unexpected";
  parse_unit = λ raw. err "unexpected";
  parse_receipt = λ raw. err "unexpected";
  parse_classified = λ raw. err "unexpected";
  parse_tenant_receipt = λ raw. err "unexpected";
  parse_tombstoned = λ raw. err "unexpected";
  adjustment_json = λ body. null;
  timeline_json = λ body. null;
  entry_json = λ body. null;
  lifecycle_json = λ body. null;
  rfc3339_secs = λ time. time;
}

abbrev policies_codec : PoliciesCodec
policies_codec = record {
  parse_policies = λ raw. err "unexpected";
  parse_detail = λ raw. err "unexpected";
  parse_versions = λ raw. err "unexpected";
  parse_version = λ raw. err "unexpected";
  parse_diff = λ raw. err "unexpected";
  parse_mutation = λ raw. err "unexpected";
  parse_validation = λ raw. err "unexpected";
  parse_batch_mutation = λ raw. err "unexpected";
  parse_evaluation = λ raw. err "unexpected";
  parse_mined = λ raw. err "unexpected";
  parse_templates = λ raw. err "unexpected";
  parse_template = λ raw. err "unexpected";
  parse_receipt = λ raw. err "unexpected";
  parse_conflict = λ raw. err "unexpected";
  parse_batch_error = λ raw. err "unexpected";
  parse_mine_error = λ raw. err "unexpected";
  create_json = λ body. null;
  validate_json = λ body. null;
  update_json = λ body. null;
  state_json = λ body. null;
  batch_state_json = λ body. null;
  evaluate_json = λ body. null;
  mine_json = λ body. null;
  install_json = λ body. null;
  lab_json = λ body. null;
  rollback_json = λ body. null;
  lifecycle_json = λ body. null;
}

abbrev sim_codec : SimCodec
sim_codec = record {
  parse_status = λ raw. err "unexpected";
  parse_spawned = λ raw. err "unexpected";
}

abbrev agents : AgentsClient (List Request)
agents = record { base_url = "https://identity/"; http = server; bearer = some "token" }

acme-IsSegment : IsSegment "acme"
acme-IsSegment = (λ e. cc, λ e. cc)

run-IsAuthorized_example :
    Exchanges server
      (IsAuthorized platform "https://identity/" "acme" (some "token"))
      IsDone
      (Operations.run platform agents_codec agents (Operations.set_budget "acme" (pos 5)))
run-IsAuthorized_example =
    run-IsAuthorized platform agents_codec agents (Operations.set_budget "acme" (pos 5))
      acme-IsSegment

-- What was decided, as the caller gives it.
abbrev approval : DecideRequest
approval = record {
  decision = approve;
  decided_by = "ann";
  reason = none;
  modification_diff = none;
  approver_assertion = none;
  decided_via = none;
  tenant = none;
}

abbrev hil : HilClient (List Request)
hil = record { base_url = "https://hil/"; http = server; tenant = some "acme" }

decide-IsDecision_example :
    Exchanges server
      (IsDecision platform hil_codec hil 7 approval (some (bearer "token" "ann" operator_mtls)))
      IsSuccess
      (decide platform hil_codec hil 7 approve "ann" none none none
        (some (bearer "token" "ann" operator_mtls))
        none)
decide-IsDecision_example =
    decide-IsDecision platform hil_codec hil 7 approve "ann" none none none
      (some (bearer "token" "ann" operator_mtls)) none

abbrev ledger : LedgerClient (List Request)
ledger = record { base_url = "https://ledger/"; http = server }

abbrev options : RegulatoryExportOptions
options = record {
  tenant = some "a&b";
  readme = none;
  include_exports = true;
  include_compliance = false;
}

regulatory_export-IsExport_example :
    Exchanges server
      (IsExport platform ledger_codec ledger "t0" "t1" options)
      (λ status. is_success status ≡ true)
      (regulatory_export platform ledger_codec ledger "t0" "t1" options)
    × ((w : List Request) (bytes : List ℕ)
        → (regulatory_export platform ledger_codec ledger "t0" "t1" options w).0 ≡ ok bytes
        → length bytes ≤ binary_response_body_limit)
regulatory_export-IsExport_example =
    regulatory_export-IsExport platform ledger_codec ledger "t0" "t1" options

abbrev policies : PoliciesClient (List Request)
policies = record {
  base_url = "https://policies/";
  http = server;
  bearer = none;
  tenant = some "acme";
}

run-IsScoped_example : Exchanges server (IsScoped platform policies_codec policies) IsDone (
    PolicyOperations.run platform policies_codec policies
      (PolicyOperations.diff "money" (pos 1) (pos 2)))
run-IsScoped_example =
    run-IsScoped platform policies_codec policies (PolicyOperations.diff "money" (pos 1) (pos 2))

abbrev simulator : SimClient (List Request)
simulator = record { base_url = "https://sim/"; http = server; request_timeout = 1 }

run-IsAttributed_example :
    Exchanges server
      (IsAttributed platform sim_codec simulator "ann@console")
      IsDone
      (Attributed.run platform sim_codec simulator (Attributed.set_running_as "ann@console" true))
run-IsAttributed_example =
    run-IsAttributed platform sim_codec simulator (Attributed.set_running_as "ann@console" true)
