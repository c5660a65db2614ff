-- ===== src/Execution/Decision.antt =====
-- How src/execution.rs reads the answer to a decision request.
use clavenar_sdk.Prelude.{
  ℕ, Bool, false, not, ◌&&◌, String, Option, none, some, ◌≡◌, ◌==◌, ◌/=◌, is_some, nat_eq, arith,
  if◌then◌else◌,
}
use clavenar_sdk.Effects.{Result, ok, err, map_err}
use clavenar_sdk.Effects.Plain.{◌>>=◌, ◌>>◌, reject_if}
use clavenar_sdk.Error.{ClavenarError, unauthorized, bad_request, server, decode, invalid_config}
use clavenar_sdk.Json.{Value, value_eq}
use clavenar_sdk.Platform.{Platform}
use clavenar_sdk.Records.{
  Uuid, SignedAuthorization, PendingAuthorization, AuthorizationState, authorized,
}
use clavenar_sdk.Execution.Validation.{validate_pending_authorization, validate_authorization}

unfoldable pub execution_http_error : ℕ → String → ClavenarError
execution_http_error status body =
    if status == 401
    then unauthorized body
    else if status == 400
    then bad_request body
    else server status body

abbrev pub other_correlation : Option PendingAuthorization → SignedAuthorization → Bool
other_correlation none signed = false
other_correlation (some pending) signed =
    signed.authorization.correlation_id /= pending.correlation_id

module _ (p : Platform) where
  -- What a 200 response must be.
  unfoldable pub accept_authorization :
      Uuid → Value → Option PendingAuthorization → String → Result ClavenarError SignedAuthorization
  accept_authorization idempotency_id body pending raw = do
    signed ← map_err decode (p.parse_signed_authorization raw)
    validate_authorization p signed idempotency_id
    reject_if
        (not (is_some signed.authorization.modification_diff)
          && signed.authorization.execution_payload /= body)
        (invalid_config "Proxy returned an unmodified authorization for a different payload")
    reject_if (other_correlation pending signed)
        (invalid_config "Proxy returned an authorization for a different pending correlation")
    ok signed

  -- What a 202 response must be.
  unfoldable pub accept_pending : Uuid → Value → String → Result ClavenarError PendingAuthorization
  accept_pending idempotency_id body raw = do
    handle ← map_err decode (p.parse_pending_authorization raw)
    validate_pending_authorization p handle idempotency_id body
    ok handle

  unfoldable pub read_decision :
      Uuid
      → Value
      → Option PendingAuthorization
      → ℕ
      → String
      → Result ClavenarError AuthorizationState
  unfolding execution_http_error
  read_decision idempotency_id body pending status raw =
      if status == 202
      then (do
        handle ← accept_pending idempotency_id body raw
        ok (AuthorizationState.pending handle))
      else if status /= 200
      then err (execution_http_error status raw)
      else (do
        signed ← accept_authorization idempotency_id body pending raw
        ok (authorized signed))

-- What a granted authorization has passed.
pub record IsGranted (p : Platform) (idempotency_id : Uuid) (body : Value)
    (pending : Option PendingAuthorization) (signed : SignedAuthorization) : Type 0 where
  pub valid : validate_authorization p signed idempotency_id ≡ ok tt
  pub unmodified :
      (not (is_some signed.authorization.modification_diff)
        && signed.authorization.execution_payload /= body)
      ≡ false
  pub correlated : other_correlation pending signed ≡ false

-- What an answer of either kind has passed.
abbrev pub IsAccepted :
    Platform → Uuid → Value → Option PendingAuthorization → AuthorizationState → Type 0
IsAccepted p idempotency_id body pending (authorized signed) =
    IsGranted p idempotency_id body pending signed
IsAccepted p idempotency_id body pending (AuthorizationState.pending handle) =
    validate_pending_authorization p handle idempotency_id body ≡ ok tt

module _ (p : Platform) (idempotency_id : Uuid) (body : Value)
    (pending : Option PendingAuthorization) where
  -- A decision answer is accepted only if it passed the checks of its kind: a pending handle those
  -- on the handle, and an authorization those on its claims, on its payload unless Proxy modified
  -- it, and on its correlation with the pending handle that is resumed, if any.
  pub read_decision-IsAccepted :
      (status : ℕ) (raw : String) (state : AuthorizationState)
      → read_decision p idempotency_id body pending status raw ≡ ok state
      → IsAccepted p idempotency_id body pending state
  unfolding read_decision accept_authorization accept_pending
  read_decision-IsAccepted status raw (authorized signed) h = ground arith
  read_decision-IsAccepted status raw (AuthorizationState.pending handle) h = ground arith
