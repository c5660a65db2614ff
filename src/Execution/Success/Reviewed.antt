-- ===== src/Execution/Success/Reviewed.antt =====
-- Operations of src/execution.rs that end with a pending human review.
use clavenar_sdk.Prelude.{◌≡◌, ◌∷◌, Option}
use clavenar_sdk.Effects.{ok}
use clavenar_sdk.Client.{ClavenarClient, Machine, sent, HttpRequest, HttpResponse, json_value}
use clavenar_sdk.Json.{Value}
use clavenar_sdk.Platform.{Platform}
use clavenar_sdk.Records.{Uuid, PreparedToolRequest, PendingAuthorization, AuthorizationState}
use clavenar_sdk.Records.Equality.{pending_eq}
use clavenar_sdk.Execution.Contracts.{tool_envelope}
use clavenar_sdk.Execution.Decision.{IsAccepted}
use clavenar_sdk.Execution.Validation.{validate_pending_authorization}

module _ (p : Platform) {W : Type 0} (client : ClavenarClient W) where
  -- One decision request was made, and its answer was accepted.
  record IsDecided (id : Uuid) (body : Value) (retained : Option PendingAuthorization)
      (state : AuthorizationState) (s t : Machine W) : Type 0 where
    pub request : HttpRequest
    pub answer : HttpResponse
    pub calls : t.calls ≡ sent request (ok answer) ∷ s.calls
    pub posted : request.body ≡ json_value body
    pub accepted : IsAccepted p id body retained state

  -- A request is waiting for a human: one decision request with its envelope was the only call, and
  -- the handle passed the checks.
  pub record IsReviewed (prepared : PreparedToolRequest) (handle : PendingAuthorization)
      (s t : Machine W) : Type 0 where
    pub request : HttpRequest
    pub answer : HttpResponse
    pub calls : t.calls ≡ sent request (ok answer) ∷ s.calls
    pub posted :
        request.body
        ≡ json_value (tool_envelope p prepared.idempotency_id prepared.name prepared.arguments)
    pub valid :
        validate_pending_authorization p handle prepared.idempotency_id
          (tool_envelope p prepared.idempotency_id prepared.name prepared.arguments)
        ≡ ok tt
