-- ===== src/Execution/Validation/Authorization.antt =====
-- What the checks on authorizations and pending handles establish.
use clavenar_sdk.Prelude.{◌≡◌, ◌↔◌, arith, eq_iff}
use clavenar_sdk.Effects.{ok}
use clavenar_sdk.Json.Canonical.{canonical_json_value, sha256}
use clavenar_sdk.Platform.{Platform}
use clavenar_sdk.Records.{Uuid, SignedAuthorization}
use clavenar_sdk.Execution.Contracts.{execution_contract}
use clavenar_sdk.Execution.Validation.{validate_authorization}

module _ (p : Platform) where
  -- The claims of an authorization that passes the checks for a request.
  pub record IsBound (signed : SignedAuthorization) (id : Uuid) : Type 0 where
    pub contract : signed.authorization.contract ≡ execution_contract
    pub stage : signed.authorization.stage ≡ "authorization"
    pub request : signed.authorization.idempotency_id ≡ id
    pub digest :
        signed.authorization.payload_sha256
        ≡ sha256 p (canonical_json_value p signed.authorization.execution_payload)
    pub algorithm : signed.identity_signature.algorithm ≡ "Ed25519"

  pub validate_authorization-IsBound :
      (signed : SignedAuthorization) (id : Uuid)
      → validate_authorization p signed id ≡ ok tt
      → IsBound signed id
  unfolding validate_authorization
  validate_authorization-IsBound signed id h =
      let claims = signed.authorization in
      ground (
        arith,
        eq_iff claims.contract execution_contract,
        eq_iff claims.stage "authorization",
        eq_iff claims.payload_sha256 (sha256 p (canonical_json_value p claims.execution_payload)),
        eq_iff signed.identity_signature.algorithm "Ed25519",
      )

  pub IsBound-validate_authorization :
      (signed : SignedAuthorization) (id : Uuid)
      → IsBound signed id
      → validate_authorization p signed id ≡ ok tt
  unfolding validate_authorization
  IsBound-validate_authorization signed id h =
      let claims = signed.authorization in
      ground (
        arith,
        eq_iff claims.contract execution_contract,
        eq_iff claims.stage "authorization",
        eq_iff claims.payload_sha256 (sha256 p (canonical_json_value p claims.execution_payload)),
        eq_iff signed.identity_signature.algorithm "Ed25519",
      )

  -- The check on an authorization passes exactly where its contract and stage are the ones of an
  -- execution authorization, it answers the caller's request, its digest is that of its canonical
  -- execution payload, and its signature claims to be Ed25519.
  pub validate_authorization_iff :
      (signed : SignedAuthorization) (id : Uuid)
      → (validate_authorization p signed id ≡ ok tt) ↔ IsBound signed id
  validate_authorization_iff signed id =
      (validate_authorization-IsBound signed id, IsBound-validate_authorization signed id)
