-- ===== src/Tests/Examples.antt =====
-- The theorems about src/execution.rs at concrete inputs.
use clavenar_sdk.Prelude.{ℕ, ◌≤◌, ◌≡◌, ◌≢◌, ◌↔◌, refl, true, false, List, [], ◌∷◌, none, inl, inr}
use clavenar_sdk.Effects.{ok, attempt, lift, pure, raise, ◌>>=◌, on_err}
use clavenar_sdk.Client.{ClavenarClient, Machine, logged, asks}
use clavenar_sdk.Http.{read_body_limited, read_chunks, read_text_limited}
use clavenar_sdk.Json.{object, end, value_beq}
use clavenar_sdk.Json.Canonical.{sha256, canonical_json_value}
use clavenar_sdk.Records.{
  UncertainExecution, ExecutionOutcome, executor_outcome_unknown, started, authorized,
}
use clavenar_sdk.Execution.AtMostOnce.{executions}
use clavenar_sdk.Records.Equality.{
  receipt_beq, signed_authorization_beq, authorization_beq, option_value_beq, policy_bundle_beq,
  identity_signature_beq, workload_signature_beq,
}
use clavenar_sdk.Execution.Operations
use clavenar_sdk.Execution.Outbox
use clavenar_sdk.Execution.Contracts.{tool_envelope}
use clavenar_sdk.Execution.Authorize.{
  send, authorize_tool, authorize_payload, authorize_payload_state, only_authorized,
}
use clavenar_sdk.Execution.Complete.{
  complete_known_effect, deliver_outbox_entry, record_receipt, canonical_json, unsigned_receipt,
  signed_receipt, completion_of,
}
use clavenar_sdk.Execution.Decision.{
  execution_http_error, read_decision, accept_authorization, IsAccepted, read_decision-IsAccepted,
}
use clavenar_sdk.Execution.Execute.{
  Dependencies, execution_dependencies, require_uncertain_effect_store, after_claim,
  after_execution, complete_effect, after_completion, execute, request_of, uncertain_with_reason,
  use_of, execute_authorization, uncertain_from_intent, intent_of,
}
use clavenar_sdk.Execution.Accounted.{IsAccounted, execute_authorization-IsAccounted}
use clavenar_sdk.Execution.Uncertain.{handle_of, validate_uncertain_intent-uncertain_from_intent}
use clavenar_sdk.Execution.Session.{
  Operation, execute_tool, flush, reconcile, run_all, start, perform, fails,
}
use clavenar_sdk.Execution.Session.Executions.{executions-run_all}
use clavenar_sdk.Execution.Session.Order.{IsOrdered, run_all-IsOrdered}
use clavenar_sdk.Execution.Session.Quiet.{executions-perform_quiet}
use clavenar_sdk.Execution.Session.FailClosed.{fails_closed}
use clavenar_sdk.Execution.Success.Authorized.{IsExecuted, execute_authorization-IsExecuted}
use clavenar_sdk.Execution.Validation.{
  validate_uncertain_intent, validate_authorization, validate_execution_effect,
  validate_outbox_entry, validate_executor_id, is_ascii_graphic, all_chars,
}
use clavenar_sdk.Execution.Validation.Authorization.{IsBound, validate_authorization_iff}
use clavenar_sdk.Tests.World.{
  World, platform, client, executor, store, key, signed, payload, effect, recorded, empty, admitted,
}
use clavenar_sdk.Tests.Lawful.{client-IsLawful}

abbrev search_tool : Operation
search_tool = execute_tool 7 "search" (object end)

abbrev steps : List (ClavenarClient World × Operation)
steps = (client, search_tool) ∷ ((client, flush 4) ∷ ((client, search_tool) ∷ []))

-- The run does execute the tool.
executes_once : executions 3 (run_all platform steps (start empty)).calls ≡ 1
unfolding run_all perform attempt lift pure raise ◌>>=◌ on_err logged asks send
    execute_authorization after_claim after_execution complete_effect after_completion execute
    complete_known_effect deliver_outbox_entry record_receipt canonical_json unsigned_receipt
    signed_receipt completion_of intent_of request_of uncertain_from_intent uncertain_with_reason
    validate_execution_effect validate_outbox_entry execution_http_error read_body_limited
    read_chunks read_text_limited receipt_beq signed_authorization_beq authorization_beq value_beq
    option_value_beq policy_bundle_beq identity_signature_beq workload_signature_beq sha256
    canonical_json_value Operations.execute_tool Outbox.flush_execution_receipt_outbox
    Outbox.deliver_all execution_dependencies require_uncertain_effect_store validate_executor_id
    is_ascii_graphic all_chars authorize_tool authorize_payload authorize_payload_state
    only_authorized tool_envelope read_decision accept_authorization validate_authorization
executes_once = refl

executions-run_all_example : executions 3 (run_all platform steps (start empty)).calls ≤ 1
executions-run_all_example =
    executions-run_all platform admitted steps empty 3
      (client-IsLawful, (client-IsLawful, (client-IsLawful, tt)))

run_all-IsOrdered_example : IsOrdered platform (run_all platform steps (start empty)).calls
run_all-IsOrdered_example = run_all-IsOrdered platform steps empty

abbrev deps : Dependencies World
deps = record { executor = executor; signing_key = key; store = store }

abbrev outcome : ExecutionOutcome
outcome = record { receipt = recorded; result = effect.result; effect_id = effect.effect_id }

abbrev finished : Machine World
finished = (execute_authorization platform client deps signed false (start empty)).1

executes :
    execute_authorization platform client deps signed false (start empty) ≡ (ok outcome, finished)
unfolding attempt lift pure raise ◌>>=◌ on_err logged asks send execute_authorization after_claim
    after_execution complete_effect after_completion execute complete_known_effect
    deliver_outbox_entry record_receipt canonical_json unsigned_receipt signed_receipt completion_of
    intent_of request_of uncertain_from_intent uncertain_with_reason validate_execution_effect
    validate_outbox_entry execution_http_error read_body_limited read_chunks read_text_limited
    receipt_beq signed_authorization_beq authorization_beq value_beq option_value_beq
    policy_bundle_beq identity_signature_beq workload_signature_beq sha256 canonical_json_value
executes = refl

execute_authorization-IsExecuted_example :
    IsExecuted platform client deps signed false outcome (start empty) finished
execute_authorization-IsExecuted_example =
    execute_authorization-IsExecuted platform client deps signed false (start empty) outcome
      finished executes

abbrev handle : UncertainExecution
handle = uncertain_from_intent (intent_of "search-tool" signed) executor_outcome_unknown true

executions-perform_quiet_example :
    executions 3
      (perform platform client (reconcile handle) (run_all platform steps (start empty))).calls
    ≡ executions 3 (run_all platform steps (start empty)).calls
executions-perform_quiet_example =
    executions-perform_quiet platform client (run_all platform steps (start empty))
      (reconcile handle) 3 (inr (handle, refl))

abbrev bare : ClavenarClient World
bare = record client { durable_execution_store = none }

fails_closed_example :
    (fails platform bare search_tool (start empty) ≡ true)
    × (perform platform bare search_tool (start empty) ≡ start empty)
fails_closed_example =
    fails_closed bare (start empty) platform (inr (inr (inl refl))) search_tool not_flush
  where
    not_flush : (limit : ℕ) → search_tool ≢ flush limit
    not_flush limit = cc

validate_authorization_iff_example :
    (validate_authorization platform signed 7 ≡ ok tt) ↔ IsBound platform signed 7
validate_authorization_iff_example = validate_authorization_iff platform signed 7

reads : read_decision platform 7 payload none 200 "authorization" ≡ ok (authorized signed)
unfolding read_decision accept_authorization validate_authorization sha256 canonical_json_value
    value_beq
reads = refl

read_decision-IsAccepted_example : IsAccepted platform 7 payload none (authorized signed)
read_decision-IsAccepted_example =
    read_decision-IsAccepted platform 7 payload none 200 "authorization" (authorized signed) reads

fresh :
    (store.begin_effect_attempt (intent_of executor.id signed) (use_of false) empty).0 ≡ ok started
unfolding intent_of
fresh = refl

execute_authorization-IsAccounted_example :
    IsAccounted platform client deps signed
      (execute_authorization platform client deps signed false (start empty))
execute_authorization-IsAccounted_example =
    execute_authorization-IsAccounted platform client deps signed false (start empty) fresh

checked : validate_authorization platform signed 7 ≡ ok tt
unfolding validate_authorization sha256 canonical_json_value value_beq
checked = refl

validate_uncertain_intent-uncertain_from_intent_example :
    validate_uncertain_intent platform
      (handle_of "search-tool" signed executor_outcome_unknown true)
      (intent_of "search-tool" signed)
    ≡ ok tt
validate_uncertain_intent-uncertain_from_intent_example =
    validate_uncertain_intent-uncertain_from_intent platform "search-tool" signed
      executor_outcome_unknown true 7 checked
