-- ===== src/Tests/Review.antt =====
-- Human review in src/execution.rs at concrete inputs.
use clavenar_sdk.Prelude.{[], ◌∷◌, none}
use clavenar_sdk.Effects.{ok}
use clavenar_sdk.Client.{ClavenarClient, Machine}
use clavenar_sdk.Json.{object, end}
use clavenar_sdk.Platform.{Platform}
use clavenar_sdk.Records.{PreparedToolRequest, PendingAuthorization, positive}
use clavenar_sdk.Records.Equality.{pending_eq}
use clavenar_sdk.Execution.Operations.{
  begin_prepared_tool_execution, resume_prepared_tool_execution,
}
use clavenar_sdk.Execution.Session.{start}
use clavenar_sdk.Tests.World.{World, platform, client, empty}

abbrev handle : PendingAuthorization
handle = record {
  contract = "clavenar.pending-authorization/v1";
  status = "pending";
  pending_id = 11;
  idempotency_id = 7;
  correlation_id = 9;
  payload_sha256 = "sha256:1111111111111111111111111111111111111111111111111111111111111111";
  ttl_seconds = positive 600;
  poll_after_ms = 1000;
}

abbrev reviewing : Platform
reviewing = record platform { parse_pending_authorization = λ raw. ok handle }

-- A Proxy that answers 202.
abbrev patient : ClavenarClient World
patient = record client {
  post = λ request w.
      (ok (record { status = 202; content_length = none; chunks = ok (3 ∷ []) ∷ [] }), w);
}

abbrev prepared : PreparedToolRequest
prepared = record { idempotency_id = 7; name = "search"; arguments = object end }

abbrev begun : Machine World
begun = (begin_prepared_tool_execution reviewing patient prepared (start empty)).1

abbrev resumed : Machine World
resumed = (resume_prepared_tool_execution reviewing patient prepared handle begun).1
