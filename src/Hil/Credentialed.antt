-- ===== src/Hil/Credentialed.antt =====
-- The request of `HilClient::decide` (src/hil.rs): one credential, and the tenant in its place.
use clavenar_sdk.Prelude.{
  ℕ, ◌≡◌, refl, ap, String, ◌<>◌, Bool, true, false, Option, none, some, List, [], ◌∷◌, string_eq,
  if◌then◌else◌,
}
use clavenar_sdk.Effects.{Result, ok, err, map_err, Run, lift, ◌>>=◌}
use clavenar_sdk.Effects.Inversion.{lift>>=-ok}
use clavenar_sdk.Error.{ClavenarError, server}
use clavenar_sdk.Json.{Value, Fields, object}
use clavenar_sdk.Platform.{Platform}
use clavenar_sdk.Records.{Uuid}
use clavenar_sdk.Service.{Url, Method, json, Request, Reply, request, is_success, reply_text}
use clavenar_sdk.Service.Authorization.{named, authorizations}
use clavenar_sdk.Service.Exchange.{
  IsSilent, lift-IsSilent, >>=-IsSilent, Exchanges, send>>=-Exchanges, lift>>=-Exchanges,
}
use clavenar_sdk.Service.Joined.{join_as-ok}
use clavenar_sdk.Hil.Records.{Decision, DecideRequest, ModificationDiff}
use clavenar_sdk.Hil.Client.{HilCodec, HilClient, join, read_json, scoped, apply_tenant_scope}
use clavenar_sdk.Hil.Bodies.{IsDecisionBody, fields_of, fields_of-IsDecisionBody}
use clavenar_sdk.Hil.Answers.{decoded}
use clavenar_sdk.Hil.Decide.{
  HilDecideCredential, session_cookie, bearer, demo_session, decide_json, body_tenant, credentialed,
  decide,
}

abbrev pub IsSuccess : ℕ → Type 0
IsSuccess status = is_success status ≡ true

decoded-IsSuccess :
    {A : Type 0} (parse : String → Result String A) (status : ℕ) (body : String) (a : A)
    → decoded parse status body ≡ ok a
    → IsSuccess status
unfolding decoded
decoded-IsSuccess parse status body a h = from_test (is_success status) refl h
  where
    from_test :
        (b : Bool)
        → is_success status ≡ b
        → (if b
            then map_err (λ e. ClavenarError.decode e) (parse body)
            else err (server status body))
          ≡ ok a
        → IsSuccess status
    from_test true q k = q
    from_test false q k = cc

module _ (p : Platform) {W A : Type 0} (client : HilClient W) (P : Request → Type 0)
    (parse : String → Result String A) where
  read : Reply → Run W ClavenarError A
  read reply = lift (reply_text p reply) >>= λ body. lift (decoded parse reply.response.status body)

  read-IsSuccess :
      (reply : Reply) (w : W) (a : A) → (read reply w).0 ≡ ok a → IsSuccess reply.response.status
  unfolding read lift
  read-IsSuccess reply w a h =
      from_text (lift>>=-ok (reply_text p reply) _ w (ap (λ x. (x, (read reply w).1)) h))
    where
      from_text :
          (body : String) × (reply_text p reply ≡ ok body)
            × (lift (decoded parse reply.response.status body) w ≡ (ok a, (read reply w).1))
          → IsSuccess reply.response.status
      from_text (body, _, e) =
          decoded-IsSuccess parse reply.response.status body a (ap (λ x. x.0) e)

  read-IsSilent : (reply : Reply) → IsSilent (read reply)
  unfolding read
  read-IsSilent reply =
      >>=-IsSilent (lift (reply_text p reply)) _ (lift-IsSilent _) (λ body. lift-IsSilent _)

  pub read_json-Exchanges :
      (r : Request) → P r → Exchanges client.http P IsSuccess (read_json p client parse r)
  unfolding read_json read
  read_json-Exchanges r h =
      send>>=-Exchanges client.http P IsSuccess r read h read-IsSilent read-IsSuccess

-- The headers that a decision carries, for each credential.
abbrev pub cookies : Option HilDecideCredential → List String
cookies none = []
cookies (some (session_cookie cookie)) = ("clavenar_hil_session" <> ("=" <> cookie)) ∷ []
cookies (some (bearer token subject method)) = []
cookies (some (demo_session jwt)) = ("clavenar_demo_session" <> ("=" <> jwt)) ∷ []

abbrev pub tokens : Option HilDecideCredential → List String
tokens (some (bearer token subject method)) = ("Bearer " <> token) ∷ []
tokens _ = []

abbrev pub scopes : Option String → List String
scopes none = []
scopes (some tenant) = tenant ∷ []

abbrev pub owner : Option String → String
owner none = "unscoped"
owner (some tenant) = tenant

module _ (p : Platform) (codec : HilCodec) {W : Type 0} (client : HilClient W) where
  abbrev pub principals : Option HilDecideCredential → List String
  principals (some (bearer token subject method)) =
      codec.principal_hex
        (record { subject = subject; tenant = owner client.tenant; method = method })
      ∷ []
  principals _ = []

  -- The request of a decision with this credential: it goes to the pending request's own path, and
  -- has this credential's headers and no other's, the client's tenant as its scope, and in its body
  -- what was decided, and the client's tenant exactly where there is no credential. The tenant of
  -- `given` is not read.
  abbrev pub IsDecision : Uuid → DecideRequest → Option HilDecideCredential → Request → Type 0
  IsDecision id given credential r =
      (p.url_join client.base_url ("decide/" <> p.uuid_to_string id) ≡ ok r.url.location)
      × (named "cookie" r.headers ≡ cookies credential)
      × (authorizations r.headers ≡ tokens credential)
      × (named "x-clavenar-decision-principal" r.headers ≡ principals credential)
      × (named "x-clavenar-tenant-scope" r.headers ≡ scopes client.tenant)
      × ((fields : Fields) × (r.body ≡ json (object fields))
          × IsDecisionBody client.tenant given credential fields)

  headers_of :
      (url : Url) (body : Value) (tenant : Option String) (credential : Option HilDecideCredential)
      → let r =
          credentialed p codec client credential
            (scoped tenant (request Method.post url (json body))) in
        (r.url ≡ url)
        × (named "cookie" r.headers ≡ cookies credential)
        × (authorizations r.headers ≡ tokens credential)
        × (named "x-clavenar-decision-principal" r.headers ≡ principals credential)
        × (named "x-clavenar-tenant-scope" r.headers ≡ scopes tenant)
        × (r.body ≡ json body)
  unfolding credentialed
  headers_of url body none none = (refl, refl, refl, refl, refl, refl)
  headers_of url body none (some (session_cookie cookie)) = (refl, refl, refl, refl, refl, refl)
  headers_of url body none (some (bearer token subject method)) =
      (refl, refl, refl, refl, refl, refl)
  headers_of url body none (some (demo_session jwt)) = (refl, refl, refl, refl, refl, refl)
  headers_of url body (some tenant) none = (refl, refl, refl, refl, refl, refl)
  headers_of url body (some tenant) (some (session_cookie cookie)) =
      (refl, refl, refl, refl, refl, refl)
  headers_of url body (some tenant) (some (bearer token subject method)) =
      (refl, refl, refl, refl, refl, refl)
  headers_of url body (some tenant) (some (demo_session jwt)) = (refl, refl, refl, refl, refl, refl)

  -- A decision makes at most one exchange: of a request to the pending request's path with the
  -- headers of its credential, the client's tenant as the scope, and a body of what was decided, which
  -- names the client's tenant exactly where there is no credential. A decision that makes no exchange
  -- fails and changes nothing, and one that succeeds was answered by a success.
  pub decide-IsDecision :
      (id : Uuid) (decision : Decision) (decided_by : String) (reason : Option String)
      (modification_diff : Option ModificationDiff) (approver_assertion : Option Value)
      (credential : Option HilDecideCredential) (decided_via : Option String)
      → Exchanges client.http
          (IsDecision id
            (record {
              decision = decision;
              decided_by = decided_by;
              reason = reason;
              modification_diff = modification_diff;
              approver_assertion = approver_assertion;
              decided_via = decided_via;
              tenant = none;
            })
            credential)
          IsSuccess
          (decide p codec client id decision decided_by reason modification_diff approver_assertion
            credential decided_via)
  unfolding decide join
  decide-IsDecision id decision decided_by reason modification_diff approver_assertion credential
        decided_via =
      lift>>=-Exchanges client.http _ IsSuccess _ _
        (λ url h. read_json-Exchanges p client _ codec.parse_pending _ (sent url (joined_at url h)))
    where
      body : DecideRequest
      body = record {
        decision = decision;
        decided_by = decided_by;
        reason = reason;
        modification_diff = modification_diff;
        approver_assertion = approver_assertion;
        decided_via = decided_via;
        tenant = body_tenant credential client.tenant;
      }

      joined_at :
          (url : Url)
          → join p client ("decide/" <> p.uuid_to_string id) ≡ ok url
          → p.url_join client.base_url ("decide/" <> p.uuid_to_string id) ≡ ok url.location
      joined_at url h = (join_as-ok p _ client.base_url _ url h).0

      sent :
          (url : Url)
          → p.url_join client.base_url ("decide/" <> p.uuid_to_string id) ≡ ok url.location
          → IsDecision id
              (record body { tenant = none })
              credential
              (credentialed p codec client credential
                (apply_tenant_scope p client (request Method.post url (json (decide_json body)))))
      sent url e =
          let (u, c, t, q, s, b) = headers_of url (decide_json body) client.tenant credential in
          (
            rw u e,
            c,
            t,
            q,
            s,
            (fields_of body, b, fields_of-IsDecisionBody client.tenant credential body refl),
          )
