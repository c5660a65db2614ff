-- ===== src/Tests/Liveness.antt =====
-- Executions and reconciliations of src/execution.rs that succeed, at concrete inputs.
use clavenar_sdk.Prelude.{◌≡◌, refl, [], ◌∷◌, none, true}
use clavenar_sdk.Effects.{ok}
use clavenar_sdk.Effects.Answers.{Answers}
use clavenar_sdk.Client.{HttpResponse}
use clavenar_sdk.Http.{read_text_limited, read_body_limited, read_chunks}
use clavenar_sdk.Json.{Value, string, object, field, end, value_beq}
use clavenar_sdk.Json.Canonical.{canonical_json_value, sha256}
use clavenar_sdk.Records.{ReceiptOutboxEntry, found, executor_outcome_unknown, completed}
use clavenar_sdk.Records.Equality.{
  receipt_beq, signed_authorization_beq, authorization_beq, option_value_beq, policy_bundle_beq,
  identity_signature_beq, workload_signature_beq,
}
use clavenar_sdk.Execution.Complete.{signed_receipt, completion_of, unsigned_receipt}
use clavenar_sdk.Execution.Execute.{
  Dependencies, intent_of, uncertain_from_intent, execute_authorization,
}
use clavenar_sdk.Execution.Keeps.{IsProvided}
use clavenar_sdk.Execution.Reconcile.{reconcile_uncertain_effect}
use clavenar_sdk.Execution.Recovery.{
  outcome_of, execute_authorization-executes, reconcile_uncertain_effect-recovers,
}
use clavenar_sdk.Execution.Responsive.{IsReachable, IsCompletable}
use clavenar_sdk.Execution.Session.{start}
use clavenar_sdk.Execution.Uncertain.{handle_of, IsReconcilable, validate_uncertain_execution_iff}
use clavenar_sdk.Execution.Validation.{
  validate_authorization, validate_execution_effect, validate_outbox_entry, validate_executor_id,
  is_ascii_graphic, all_chars, validate_uncertain_execution,
}
use clavenar_sdk.Tests.World.{
  World, platform, client, store, executor, key, signed, effect, recorded, empty, intent_for,
}

abbrev deps : Dependencies World
deps = record { executor = executor; signing_key = key; store = store }

-- The world holds the durable intent.
abbrev Kept : World → Type 0
Kept w = w.intents ≡ intent_of "search-tool" signed ∷ []

abbrev value : Value
value = object (field "effect_id" (string "effect-1") end)

abbrev queued_entry : ReceiptOutboxEntry
unfolding signed_receipt canonical_json_value
queued_entry = record {
  outbox_id = "outbox-1";
  receipt = signed_receipt platform key signed effect (canonical_json_value platform value);
}

abbrev response : HttpResponse
response = record { status = 200; content_length = none; chunks = ok (2 ∷ []) ∷ [] }

reachable : IsReachable platform Kept client queued_entry.receipt recorded
unfolding read_text_limited read_body_limited read_chunks
reachable = record {
  endpoint = "execution-receipts";
  response = response;
  raw = "recorded";
  joined = refl;
  answered = record { at = λ w h. (refl, h) };
  readable = refl;
  success = refl;
  parsed = refl;
}

completable : IsCompletable platform Kept client store key signed effect "search-tool" recorded
unfolding signed_receipt completion_of unsigned_receipt validate_outbox_entry receipt_beq
    signed_authorization_beq authorization_beq value_beq option_value_beq policy_bundle_beq
    identity_signature_beq workload_signature_beq sha256 canonical_json_value
completable = record {
  value = value;
  entry = queued_entry;
  printed = refl;
  commits = record { at = λ w h. (refl, h) };
  queued = refl;
  deliverable = record {
    valid = refl;
    reachable = reachable;
    matching = refl;
    marked_as = record { at = λ w h. (refl, h) };
  };
}

valid : validate_execution_effect effect ≡ ok tt
unfolding validate_execution_effect
valid = refl

given : IsProvided client deps
unfolding validate_executor_id is_ascii_graphic all_chars
given = record {
  executor_given = refl;
  executor_valid = refl;
  key_given = refl;
  store_given = refl;
}

execute_authorization-executes_example :
    (execute_authorization platform client deps signed true (start empty)).0
    ≡ ok (outcome_of effect recorded)
execute_authorization-executes_example =
    execute_authorization-executes platform {I = Kept} client deps signed effect recorded valid
      completable (record { at = λ w h. (refl, h) }) true (start empty) refl refl

checked : validate_authorization platform signed 7 ≡ ok tt
unfolding validate_authorization sha256 canonical_json_value value_beq
checked = refl

reconcilable : IsReconcilable "search-tool" signed executor_outcome_unknown true
unfolding validate_uncertain_execution uncertain_from_intent intent_of validate_executor_id
    is_ascii_graphic all_chars
reconcilable =
    (validate_uncertain_execution_iff "search-tool" signed executor_outcome_unknown true).0 refl

reconcile_uncertain_effect-recovers_example :
    Answers Kept
      (reconcile_uncertain_effect platform client
        (handle_of "search-tool" signed executor_outcome_unknown true))
      (completed (outcome_of effect recorded))
unfolding intent_of
reconcile_uncertain_effect-recovers_example =
    reconcile_uncertain_effect-recovers platform client deps signed executor_outcome_unknown true 7
      checked reconcilable given (λ w h. refl)
      (record { at = λ w h. ((λ i. ok (intent_for 3 (h i))), h) })
      (λ request w. (ok (found effect), w)) effect recorded refl (record { at = λ w h. (refl, h) })
      valid completable
