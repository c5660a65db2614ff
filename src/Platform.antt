-- ===== src/Platform.antt =====
-- The functions of other crates that the program calls: uuid, sha2 and hex, p256, base64, url and
-- serde_json. They are parameters: nothing is known of them but what a theorem's hypotheses say.
use clavenar_sdk.Prelude.{ℕ, String, Option, List}
use clavenar_sdk.Effects.{Result}
use clavenar_sdk.Json.{Value}
use clavenar_sdk.Records.{
  Uuid, AtomicBatchEnvelope, SignedAuthorization, UnsignedExecutionReceipt, ReceiptRecorded,
  PendingAuthorization,
}

-- `p256::ecdsa::SigningKey`, by its secret scalar.
pub record SigningKey : Type 0 where
  pub scalar : ℕ

-- `DenyResponse` of src/client.rs: the envelope of a 403, absent fields by their defaults.
pub record DenyResponse : Type 0 where
  pub reasons : List String
  pub review_reasons : List String
  pub intent_category : String
  pub correlation_id : Option String

pub record Platform : Type 0 where
  -- `Uuid::to_string`
  pub uuid_to_string : Uuid → String
  -- `hex::encode(Sha256::digest(bytes))`
  pub sha256_hex : String → String
  -- `SigningKey::sign`, as the bytes of the signature
  pub sign : SigningKey → String → List ℕ
  -- `URL_SAFE_NO_PAD.encode`
  pub base64_url : List ℕ → String
  -- `Url::join`, with the error's text
  pub url_join : String → String → Result String String
  -- `String::from_utf8`, with the error's text
  pub from_utf8 : List ℕ → Result String String
  -- `Value::to_string`
  pub value_to_string : Value → String
  -- `serde_json::from_str` at each type, with the error's text
  pub parse_signed_authorization : String → Result String SignedAuthorization
  pub parse_pending_authorization : String → Result String PendingAuthorization
  pub parse_receipt_recorded : String → Result String ReceiptRecorded
  pub parse_value : String → Result String Value
  pub parse_deny_response : String → Result String DenyResponse
  -- `serde_json::from_value`
  pub batch_envelope_from_value : Value → Result String AtomicBatchEnvelope
  -- `serde_json::to_value`, `serde_json::to_string`
  pub receipt_to_value : UnsignedExecutionReceipt → Result String Value
  pub pending_to_string : PendingAuthorization → Result String String
