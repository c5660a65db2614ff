-- ===== src/Error.antt =====
-- src/error.rs: the errors of every client. The errors of reqwest and serde_json are their texts,
-- and a status code is its number.
use clavenar_sdk.Prelude.{ℕ, String, Option, List}
use clavenar_sdk.Records.{Uuid, UncertainExecution}

pub data ClavenarError : Type 0 where
  -- intent category, reasons, review reasons, correlation id, raw body
  veto : String → List String → List String → Option String → String → ClavenarError
  unauthorized bad_request : String → ClavenarError
  server : ℕ → String → ClavenarError
  transport decode : String → ClavenarError
  response_too_large : ℕ → ClavenarError
  invalid_response : String → ClavenarError
  execution_uncertain : UncertainExecution → ClavenarError
  -- authorization id, idempotency id
  execution_already_completed : Uuid → Uuid → ClavenarError
  invalid_config : String → ClavenarError
