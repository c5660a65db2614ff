-- ===== src/Execution/Authorize.antt =====
-- The decision request of src/execution.rs: `authorize_payload_state` and what is built on it.
use clavenar_sdk.Prelude.{String, ◌<>◌, Option, none, some, List, [], ◌∷◌}
use clavenar_sdk.Effects.{map_err, Run, pure, raise, lift, on_err, ◌>>=◌, ◌>>◌}
use clavenar_sdk.Error.{ClavenarError, server, transport, decode, invalid_config}
use clavenar_sdk.Client.{
  json_value, HttpRequest, HttpResponse, Auth, open_access, bearer, ClavenarClient, Machine, sent,
  logged,
}
use clavenar_sdk.Http.{read_text_limited}
use clavenar_sdk.Json.{Value}
use clavenar_sdk.Platform.{Platform}
use clavenar_sdk.Records.{
  Uuid, ModelToolCall, PreparedToolRequest, PreparedToolBatch, SignedAuthorization,
  PendingAuthorization, AuthorizationState, authorized,
}
use clavenar_sdk.Execution.Contracts.{
  decision_contract, decision_contract_header, idempotency_id_header, pending_id_header,
  pending_payload_sha256_header, tool_envelope, atomic_batch_envelope,
}
use clavenar_sdk.Execution.Decision.{read_decision}
use clavenar_sdk.Execution.Validation.{
  validate_request, validate_batch, validate_model_tool_calls, validate_batch_authorization,
}

abbrev pub Action : Type 0 → Type 0 → Type 0
Action W A = Run (Machine W) ClavenarError A

abbrev pub bearer_of : Auth → Option String
bearer_of open_access = none
bearer_of (bearer token) = some token

-- `request.send().await?`
unfoldable pub send : {W : Type 0} → ClavenarClient W → HttpRequest → Action W HttpResponse
send client request = on_err transport (logged (sent request) (client.post request))

module _ (p : Platform) where
  abbrev pub pending_headers : Option PendingAuthorization → List (String × String)
  pending_headers none = []
  pending_headers (some pending) =
      (pending_id_header, p.uuid_to_string pending.pending_id)
      ∷ ((pending_payload_sha256_header, pending.payload_sha256) ∷ [])

  abbrev pub decision_headers : Uuid → Option PendingAuthorization → List (String × String)
  decision_headers idempotency_id pending =
      (decision_contract_header, decision_contract)
      ∷ ((idempotency_id_header, p.uuid_to_string idempotency_id) ∷ pending_headers pending)

  module _ {W : Type 0} (client : ClavenarClient W) where
    unfoldable pub authorize_payload_state :
        Uuid → Value → Option PendingAuthorization → Action W AuthorizationState
    authorize_payload_state idempotency_id body pending = do
      endpoint ←
          lift
            (map_err (λ e. invalid_config ("join /mcp: " <> e)) (p.url_join client.base_url "mcp"))
      response ← send client (record {
        endpoint = endpoint;
        headers = decision_headers idempotency_id pending;
        bearer = bearer_of client.auth;
        body = json_value body;
      })
      raw ← lift (read_text_limited p response)
      lift (read_decision p idempotency_id body pending response.status raw)

    -- A review is an error of the calls that cannot resume it.
    unfoldable pub only_authorized : AuthorizationState → Action W SignedAuthorization
    only_authorized (authorized signed) = pure signed
    only_authorized (AuthorizationState.pending handle) = do
      body ← lift (map_err decode (p.pending_to_string handle))
      raise (server 202 body)

    unfoldable pub authorize_payload : Uuid → Value → Action W SignedAuthorization
    unfolding authorize_payload_state only_authorized
    authorize_payload idempotency_id body = do
      state ← authorize_payload_state idempotency_id body none
      only_authorized state

    unfoldable pub authorize_tool : Uuid → String → Value → Action W SignedAuthorization
    unfolding authorize_payload
    authorize_tool idempotency_id name arguments =
        authorize_payload idempotency_id (tool_envelope p idempotency_id name arguments)

    unfoldable pub authorize_prepared_tool : PreparedToolRequest → Action W SignedAuthorization
    unfolding authorize_tool
    authorize_prepared_tool prepared = do
      lift (validate_request prepared)
      authorize_tool prepared.idempotency_id prepared.name prepared.arguments

    unfoldable pub authorize_tool_batch : Uuid → List ModelToolCall → Action W SignedAuthorization
    unfolding authorize_payload
    authorize_tool_batch idempotency_id calls = do
      lift (validate_model_tool_calls calls)
      let body = atomic_batch_envelope p idempotency_id calls
      signed ← authorize_payload idempotency_id body
      lift (validate_batch_authorization p signed idempotency_id calls body)
      pure signed

    unfoldable pub authorize_prepared_tool_batch : PreparedToolBatch → Action W SignedAuthorization
    unfolding authorize_tool_batch
    authorize_prepared_tool_batch prepared = do
      lift (validate_batch prepared)
      authorize_tool_batch prepared.idempotency_id prepared.calls
