-- ===== src/Tests/World.antt =====
-- A small outside world for src/execution.rs: a store in memory, Proxy's answers, and an executor.
use clavenar_sdk.Prelude.{
  String, Bool, true, false, ◌||◌, Option, none, some, List, [], ◌∷◌, ◌==◌, nat_eq, string_eq,
  if◌then◌else◌,
}
use clavenar_sdk.Effects.{ok, err, Run}
use clavenar_sdk.Json.{Value, object, string, end, field}
use clavenar_sdk.Platform.{Platform, SigningKey}
use clavenar_sdk.Client.{
  Async, ClavenarClient, DurableExecutionStore, RegisteredToolExecutor, HttpRequest, HttpResponse,
  open_access,
}
use clavenar_sdk.Records.{
  Uuid, SignedAuthorization, ExecutionIntent, EffectAuthorizationUse, EffectAttemptClaim, started,
  already_in_flight, ExecutionEffect, ReceiptOutboxEntry, ReceiptRecorded, found, claimed,
}

abbrev digest_of : String → String
digest_of s =
    if s == ""
    then "0000000000000000000000000000000000000000000000000000000000000000"
    else "1111111111111111111111111111111111111111111111111111111111111111"

abbrev pub payload : Value
payload = object (
    field "id" (string "7") (
      field "jsonrpc" (string "2.0") (
        field "method" (string "tools/call") (
          field "params"
            (object (field "arguments" (object end) (field "name" (string "search") end))) end))))

abbrev pub signed : SignedAuthorization
signed = record {
  authorization = record {
    contract = "clavenar.execution/v1";
    stage = "authorization";
    authorization_id = 3;
    idempotency_id = 7;
    correlation_id = 9;
    agent_id = "agent";
    agent_spiffe = "spiffe://agent";
    tenant = "acme";
    credential_fingerprint = "fp";
    method = "tools/call";
    tool_name = "search";
    execution_payload = payload;
    payload_sha256 = "sha256:1111111111111111111111111111111111111111111111111111111111111111";
    decision_principal = object end;
    modification_diff = none;
    policy_bundle = record {
      schema_version = 1;
      version = "1";
      hash_sha256 = "";
      policy_count = 1;
    };
    brain_version = "1";
    brain_evidence_sha256 = "";
  };
  identity_signature = record { algorithm = "Ed25519"; key_id = "k"; value = "v" };
}

abbrev pub recorded : ReceiptRecorded
recorded = record {
  status = "recorded";
  contract = "clavenar.execution/v1";
  stage = "execution.completed";
  authorization_id = 3;
  receipt_sha256 = "";
}

abbrev pub platform : Platform
platform = record {
  uuid_to_string = λ id. if id == 7 then "7" else "0";
  sha256_hex = digest_of;
  sign = λ key text. key.scalar ∷ [];
  base64_url = λ bytes. "c2ln";
  url_join = λ base path. ok path;
  from_utf8 = λ bytes. elim bytes [
    | [] ↦ err "empty"
    | n ∷ rest ↦ ok (if n == 1 then "authorization" else "recorded")
  ];
  value_to_string = λ v. "v";
  parse_signed_authorization =
      λ raw. if raw == "authorization" then ok signed else err "not an authorization";
  parse_pending_authorization = λ raw. err "not a handle";
  parse_receipt_recorded = λ raw. if raw == "recorded" then ok recorded else err "not a receipt";
  parse_value = λ raw. ok (string raw);
  parse_deny_response = λ raw. err "not a denial";
  batch_envelope_from_value = λ v. err "not an envelope";
  receipt_to_value = λ receipt. ok (object (field "effect_id" (string receipt.effect_id) end));
  pending_to_string = λ handle. ok "{}";
}

pub record World : Type 0 where
  pub seen : List Uuid
  pub intents : List ExecutionIntent
  pub outbox : List ReceiptOutboxEntry

abbrev pub empty : World
empty = record { seen = []; intents = []; outbox = [] }

abbrev pub member : List Uuid → Uuid → Bool
member [] id = false
member (x ∷ xs) id = (x == id) || member xs id

abbrev pub admitted : World → Uuid → Bool
admitted w id = member w.seen id

abbrev pub begin : ExecutionIntent → EffectAuthorizationUse → Async World EffectAttemptClaim
begin intent how w = if member w.seen intent.authorization_id then (ok already_in_flight, w) else (
  ok started,
  record {
    seen = intent.authorization_id ∷ w.seen;
    intents = intent ∷ w.intents;
    outbox = w.outbox;
  },
)

abbrev pub intent_for : Uuid → List ExecutionIntent → Option ExecutionIntent
intent_for id [] = none
intent_for id (intent ∷ rest) =
    let later = intent_for id rest in if intent.authorization_id == id then some intent else later

abbrev pub store : DurableExecutionStore World
store = record {
  commit_intent = λ intent w. (ok tt, w);
  supports_single_use_authorization = λ w. true;
  claim_intent_once = λ intent w. (ok claimed, w);
  supports_uncertain_effect_reconciliation = λ w. true;
  begin_effect_attempt = begin;
  load_uncertain_intent = λ id w. (ok (intent_for id w.intents), w);
  commit_effect_and_enqueue_receipt = λ completion w.
      let entry : ReceiptOutboxEntry = record {
        outbox_id = "outbox-1";
        receipt = completion.receipt;
      } in
      (ok entry, record { seen = w.seen; intents = w.intents; outbox = entry ∷ w.outbox });
  pending_receipts = λ limit w. (ok w.outbox, w);
  mark_receipt_delivered =
      λ id receipt w. (ok tt, record { seen = w.seen; intents = w.intents; outbox = [] });
}

abbrev pub effect : ExecutionEffect
effect = record { result = string "done"; effect_id = "effect-1" }

abbrev pub executor : RegisteredToolExecutor World
executor = record {
  id = "search-tool";
  callback = λ request w. (ok effect, w);
  effect_lookup = some (λ request w. (ok (found effect), w));
}

abbrev pub key : SigningKey
key = record { scalar = 5 }

abbrev pub answer : HttpRequest → Run World String HttpResponse
answer request w = (
  ok (record {
    status = 200;
    content_length = none;
    chunks = ok ((if request.endpoint == "mcp" then 1 else 2) ∷ []) ∷ [];
  }),
  w,
)

abbrev pub client : ClavenarClient World
client = record {
  base_url = "https://proxy.example";
  auth = open_access;
  post = answer;
  execution_signing_key = some key;
  tool_executor = some executor;
  durable_execution_store = some store;
}
