-- ===== src/Hil/Decide.antt =====
-- `HilClient::decide` of src/hil.rs: the decision on a pending request, and its credential.
use clavenar_sdk.Prelude.{String, ◌<>◌, Option, none, some, List, [], ◌∷◌}
use clavenar_sdk.Effects.{Run, lift, ◌>>=◌}
use clavenar_sdk.Error.{ClavenarError}
use clavenar_sdk.Json.{Value, Items, nil, cons, string, array, object, field, end}
use clavenar_sdk.Platform.{Platform}
use clavenar_sdk.Records.{Uuid}
use clavenar_sdk.Service.{Method, json, Request, request, header, bearer_auth}
use clavenar_sdk.Service.Body.{strings, some_field, some_text}
use clavenar_sdk.Hil.Records.{
  PendingRequest, PendingStatus, pending, approved, denied, expired, Decision, approve, deny,
  modify, ModificationDiff, ArgumentScalarReplacement, DecideRequest, DecisionPrincipalMethod,
  ConsolePrincipalClaim,
}
use clavenar_sdk.Hil.Client.{
  HilCodec, HilClient, join, apply_tenant_scope, read_json, hil_session_cookie, demo_session_cookie,
  decision_principal_header,
}

abbrev modification_diff_contract : String
modification_diff_contract = "clavenar.hil.modification-diff/v1"

pub v1 : List ArgumentScalarReplacement → ModificationDiff
v1 replacements = record { contract = modification_diff_contract; replacements = replacements }

pub label : PendingStatus → String
label pending = "Pending"
label approved = "Approved"
label denied = "Denied"
label expired = "Expired"

pub data HilDecideCredential : Type 0 where
  session_cookie : String → HilDecideCredential
  -- token, subject, method
  bearer : String → String → DecisionPrincipalMethod → HilDecideCredential
  demo_session : String → HilDecideCredential

-- The JSON of the body.
abbrev pub decision_wire : Decision → String
decision_wire approve = "approve"
decision_wire deny = "deny"
decision_wire modify = "modify"

abbrev replacements_json : List ArgumentScalarReplacement → Items
replacements_json [] = nil
replacements_json (r ∷ rs) =
    cons (object (field "path" (array (strings r.path)) (field "value" r.value end)))
      (replacements_json rs)

abbrev pub diff_json : Option ModificationDiff → Option Value
diff_json none = none
diff_json (some d) = some (
    object (
      field "contract" (string d.contract)
        (field "replacements" (array (replacements_json d.replacements)) end)))

abbrev pub decide_json : DecideRequest → Value
decide_json r = object (
    field "decision" (string (decision_wire r.decision)) (
      field "decided_by" (string r.decided_by) (
        some_text "reason" r.reason (
          some_field "modification_diff" (diff_json r.modification_diff) (
            some_field "approver_assertion" r.approver_assertion
              (some_text "decided_via" r.decided_via (some_text "tenant" r.tenant end)))))))

-- `credential.is_none().then(|| self.tenant.clone()).flatten()`
abbrev pub body_tenant : Option HilDecideCredential → Option String → Option String
body_tenant none tenant = tenant
body_tenant (some _) tenant = none

-- `self.tenant.as_deref().unwrap_or("unscoped")`
abbrev pub or_unscoped : Option String → String
or_unscoped none = "unscoped"
or_unscoped (some tenant) = tenant

module _ (p : Platform) (codec : HilCodec) {W : Type 0} (client : HilClient W) where
  abbrev pub principal_of : String → DecisionPrincipalMethod → ConsolePrincipalClaim
  principal_of subject method = record {
    subject = subject;
    tenant = or_unscoped client.tenant;
    method = method;
  }

  -- The headers of the credential.
  unfoldable pub credentialed : Option HilDecideCredential → Request → Request
  credentialed none r = r
  credentialed (some (session_cookie cookie)) r =
      header "cookie" (hil_session_cookie <> ("=" <> cookie)) r
  credentialed (some (bearer token subject method)) r =
      header decision_principal_header (codec.principal_hex (principal_of subject method))
        (bearer_auth token r)
  credentialed (some (demo_session jwt)) r = header "cookie" (demo_session_cookie <> ("=" <> jwt)) r

  unfoldable pub decide :
      Uuid
      → Decision
      → String
      → Option String
      → Option ModificationDiff
      → Option Value
      → Option HilDecideCredential
      → Option String
      → Run W ClavenarError PendingRequest
  unfolding join read_json credentialed
  decide id decision decided_by reason modification_diff approver_assertion credential decided_via =
      do
        url ← lift (join p client ("decide/" <> p.uuid_to_string id))
        read_json p client codec.parse_pending (
            credentialed credential (
              apply_tenant_scope p client (
                request Method.post url (
                  json (
                    decide_json (record {
                      decision = decision;
                      decided_by = decided_by;
                      reason = reason;
                      modification_diff = modification_diff;
                      approver_assertion = approver_assertion;
                      decided_via = decided_via;
                      tenant = body_tenant credential client.tenant;
                    }))))))
