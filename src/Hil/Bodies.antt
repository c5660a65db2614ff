-- ===== src/Hil/Bodies.antt =====
-- The JSON body of `HilClient::decide` (src/hil.rs), read back by the names of its members.
use clavenar_sdk.Prelude.{
  ◌≡◌, refl, ap, String, false, Option, none, some, List, [], ◌∷◌, ◌∙◌, ◌==◌, string_eq,
}
use clavenar_sdk.Json.{Value, Fields, string, field, end}
use clavenar_sdk.Service.Body.{some_field, some_text}
use clavenar_sdk.Service.Members.{
  members, values, text, members-other_field, members-other_text, members-some_field,
  members-some_text,
}
use clavenar_sdk.Hil.Records.{Decision, approve, deny, modify, DecideRequest}
use clavenar_sdk.Hil.Decide.{
  HilDecideCredential, session_cookie, bearer, demo_session, body_tenant, decision_wire, diff_json,
}

-- The tenant that the body names: the client's where there is no credential, and none otherwise.
abbrev pub named_tenants : Option HilDecideCredential → Option String → List Value
named_tenants none none = []
named_tenants none (some tenant) = string tenant ∷ []
named_tenants (some (session_cookie cookie)) tenant = []
named_tenants (some (bearer token subject method)) tenant = []
named_tenants (some (demo_session jwt)) tenant = []

abbrev pub verb : Decision → String
verb approve = "approve"
verb deny = "deny"
verb modify = "modify"

wire-verb : (d : Decision) → decision_wire d ≡ verb d
wire-verb approve = refl
wire-verb deny = refl
wire-verb modify = refl

tenant-texts :
    (credential : Option HilDecideCredential) (tenant : Option String)
    → values (text (body_tenant credential tenant)) ≡ named_tenants credential tenant
tenant-texts none none = refl
tenant-texts none (some tenant) = refl
tenant-texts (some (session_cookie cookie)) tenant = refl
tenant-texts (some (bearer token subject method)) tenant = refl
tenant-texts (some (demo_session jwt)) tenant = refl

-- The members of a body, from the last to the first.
module _ (r : DecideRequest) where
  abbrev tenant_tail : Fields
  tenant_tail = some_text "tenant" r.tenant end

  abbrev via_tail : Fields
  via_tail = some_text "decided_via" r.decided_via tenant_tail

  abbrev assertion_tail : Fields
  assertion_tail = some_field "approver_assertion" r.approver_assertion via_tail

  abbrev diff_tail : Fields
  diff_tail = some_field "modification_diff" (diff_json r.modification_diff) assertion_tail

  abbrev reason_tail : Fields
  reason_tail = some_text "reason" r.reason diff_tail

  abbrev pub fields_of : Fields
  fields_of =
      field "decision" (string (decision_wire r.decision))
        (field "decided_by" (string r.decided_by) reason_tail)

  no_via :
      (n : String)
      → ("decided_via" == n) ≡ false
      → ("tenant" == n) ≡ false
      → members n via_tail ≡ []
  no_via n h k =
      members-other_text n "decided_via" r.decided_via tenant_tail h
      ∙ members-other_text n "tenant" r.tenant end k

  to_assertion :
      (n : String)
      → ("reason" == n) ≡ false
      → ("modification_diff" == n) ≡ false
      → members n reason_tail ≡ members n assertion_tail
  to_assertion n h k =
      members-other_text n "reason" r.reason diff_tail h
      ∙ members-other_field n "modification_diff" (diff_json r.modification_diff) assertion_tail k

  to_via :
      (n : String)
      → ("reason" == n) ≡ false
      → ("modification_diff" == n) ≡ false
      → ("approver_assertion" == n) ≡ false
      → members n reason_tail ≡ members n via_tail
  to_via n h k l =
      to_assertion n h k
      ∙ members-other_field n "approver_assertion" r.approver_assertion via_tail l

module _ (tenant : Option String) where
  -- The members of the body: the decision, by whom, and what the caller gave with it.
  abbrev pub IsDecisionBody : DecideRequest → Option HilDecideCredential → Fields → Type 0
  IsDecisionBody given credential fields =
      (members "decision" fields ≡ string (verb given.decision) ∷ [])
      × (members "decided_by" fields ≡ string given.decided_by ∷ [])
      × (members "reason" fields ≡ values (text given.reason))
      × (members "modification_diff" fields ≡ values (diff_json given.modification_diff))
      × (members "approver_assertion" fields ≡ values given.approver_assertion)
      × (members "decided_via" fields ≡ values (text given.decided_via))
      × (members "tenant" fields ≡ named_tenants credential tenant)

  pub fields_of-IsDecisionBody :
      (credential : Option HilDecideCredential) (r : DecideRequest)
      → r.tenant ≡ body_tenant credential tenant
      → IsDecisionBody (record r { tenant = none }) credential (fields_of r)
  fields_of-IsDecisionBody credential r same = (
    rw (to_via r "decision" refl refl refl, no_via r "decision" refl refl, wire-verb r.decision)
        refl,
    rw (to_via r "decided_by" refl refl refl, no_via r "decided_by" refl refl) refl,
    members-some_text "reason" "reason" r.reason _ refl (
        members-other_field "reason" "modification_diff" (diff_json r.modification_diff) _ refl
        ∙ (members-other_field "reason" "approver_assertion" r.approver_assertion _ refl
            ∙ no_via r "reason" refl refl)),
    members-other_text "modification_diff" "reason" r.reason (diff_tail r) refl
        ∙ members-some_field "modification_diff" "modification_diff" (diff_json r.modification_diff)
            _ refl
            (members-other_field "modification_diff" "approver_assertion" r.approver_assertion _
                refl
              ∙ no_via r "modification_diff" refl refl),
    to_assertion r "approver_assertion" refl refl
        ∙ members-some_field "approver_assertion" "approver_assertion" r.approver_assertion _ refl
            (no_via r "approver_assertion" refl refl),
    to_via r "decided_via" refl refl refl
        ∙ members-some_text "decided_via" "decided_via" r.decided_via _ refl
            (members-other_text "decided_via" "tenant" r.tenant end refl),
    to_via r "tenant" refl refl refl
        ∙ (members-other_text "tenant" "decided_via" r.decided_via _ refl
            ∙ (members-some_text "tenant" "tenant" r.tenant end refl refl
                ∙ (ap (λ o. values (text o)) same ∙ tenant-texts credential tenant))),
  )
