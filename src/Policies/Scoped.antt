-- ===== src/Policies/Scoped.antt =====
-- What each of the CRUD calls of `PoliciesClient` (src/policies.rs) sends.
use clavenar_sdk.Prelude.{
  ◌≡◌, refl, ap, ◌∙◌, String, Bool, true, false, Option, none, some, List, [], ◌∷◌, ◌++◌, ◌==◌,
  string_eq, arith,
}
use mathlib.Core.List.{append-nil}
use clavenar_sdk.Effects.{Result, ok, err, Run, pure, lift, ◌>>=◌}
use clavenar_sdk.Error.{ClavenarError}
use clavenar_sdk.Json.{Value}
use clavenar_sdk.Platform.{Platform}
use clavenar_sdk.Service.{
  Url, Method, json, no_body, Request, request, append_some, map_url, join_as,
}
use clavenar_sdk.Service.Authorization.{
  authorizations, named, named-append, bearers, IsDone, with_auth-authorizations, with_auth-url,
  perform-Exchanges,
}
use clavenar_sdk.Service.Exchange.{Exchanges, lift>>=-Exchanges, >>=-Exchanges, pure-IsSilent}
use clavenar_sdk.Service.Joined.{join_as-ok}
use clavenar_sdk.Service.Decimal.{show_int}
use clavenar_sdk.Policies.Client
use clavenar_sdk.Policies.Client.{
  PoliciesCodec, PoliciesClient, join, get_json, send_json, list_url, diff_url,
}
use clavenar_sdk.Policies.Changes
use clavenar_sdk.Policies.Operations.{Operation, run}

abbrev pub stamp : Option String → List String
stamp none = []
stamp (some tenant) = tenant ∷ []

stamped :
    (tenant : Option String) (x : Result ClavenarError Url) (url : Url)
    → map_url (append_some "tenant" tenant) x ≡ ok url
    → (url' : Url) × (x ≡ ok url')
      × (url.location ≡ url'.location)
      × (named "tenant" url.query ≡ named "tenant" url'.query ++ stamp tenant)
stamped tenant (err e) url h = cc
stamped none (ok url') url h =
    (url', refl, ground (arith, h), ground (arith, append-nil (named "tenant" url'.query), h))
stamped (some t) (ok url') url h = (
  url',
  refl,
  ground (arith, h),
  ground (arith, named-append "tenant" url'.query (("tenant", t) ∷ []), h),
)

unnamed :
    (key other v : String) (xs : List (String × String))
    → (other == key) ≡ false
    → named key (xs ++ (other, v) ∷ []) ≡ named key xs
unnamed key other v xs h = named-append key xs ((other, v) ∷ []) ∙ rw h (append-nil (named key xs))

list_url-same :
    (p : Platform) (codec : PoliciesCodec) {W : Type 0} (client : PoliciesClient W) (b : Bool)
    (url : Url)
    → ((list_url p codec client b url).location ≡ url.location)
      × (named "tenant" (list_url p codec client b url).query ≡ named "tenant" url.query)
list_url-same p codec client true url =
    (refl, unnamed "tenant" "include_deleted" "true" url.query refl)
list_url-same p codec client false url = (refl, refl)

module _ (p : Platform) (codec : PoliciesCodec) {W : Type 0} (client : PoliciesClient W) where
  -- The request goes to a URL joined to the base, with the bearer if there is one and no other
  -- authorization, and its query names the client's tenant exactly once, or none at all.
  abbrev pub IsScoped : Request → Type 0
  IsScoped r =
      (authorizations r.headers ≡ bearers client.bearer)
      × ((path : String) × (p.url_join client.base_url path ≡ ok r.url.location))
      × (named "tenant" r.url.query ≡ stamp client.tenant)

  abbrev Scoped : {A : Type 0} → Run W ClavenarError A → Type 0
  Scoped op = Exchanges client.http IsScoped IsDone op

  join-ok :
      (suffix : String) (url : Url)
      → join p codec client suffix ≡ ok url
      → (p.url_join client.base_url suffix ≡ ok url.location)
        × (named "tenant" url.query ≡ stamp client.tenant)
  unfolding join
  join-ok suffix url h = from_parts (stamped client.tenant _ url h)
    where
      from_parts :
          (url' : Url) × (join_as p suffix client.base_url suffix ≡ ok url')
            × (url.location ≡ url'.location)
            × (named "tenant" url.query ≡ named "tenant" url'.query ++ stamp client.tenant)
          → (p.url_join client.base_url suffix ≡ ok url.location)
            × (named "tenant" url.query ≡ stamp client.tenant)
      from_parts (url', e, l, q) =
          let (e1, e2) = join_as-ok p suffix client.base_url suffix url' e in
          (rw l e1, q ∙ ap (λ xs. named "tenant" xs ++ stamp client.tenant) e2)

  module _ {A : Type 0} (parse : String → Result String A) (url : Url) (suffix : String)
      (e : p.url_join client.base_url suffix ≡ ok url.location)
      (q : named "tenant" url.query ≡ stamp client.tenant) where
    get_json-Scoped : Scoped (get_json p codec client parse url)
    unfolding get_json
    get_json-Scoped = perform-Exchanges p client.http _ parse _ (
      with_auth-authorizations client.bearer (request Method.get url no_body) refl,
      (suffix, rw (with_auth-url client.bearer (request Method.get url no_body)) e),
      rw (with_auth-url client.bearer (request Method.get url no_body)) q,
    )

    send_json-Scoped :
        (method : Method) (body : Value) → Scoped (send_json p codec client parse method url body)
    unfolding send_json
    send_json-Scoped method body = perform-Exchanges p client.http _ parse _ (
      with_auth-authorizations client.bearer (request method url (json body)) refl,
      (suffix, rw (with_auth-url client.bearer (request method url (json body))) e),
      rw (with_auth-url client.bearer (request method url (json body))) q,
    )

  -- What is joined and then extended by pairs of other names.
  module _ {A : Type 0} (parse : String → Result String A) (suffix : String) (g : Url → Url)
      (same : (url : Url)
        → ((g url).location ≡ url.location)
          × (named "tenant" (g url).query ≡ named "tenant" url.query)) where
    got_at :
        (url : Url)
        → join p codec client suffix ≡ ok url
        → Scoped (get_json p codec client parse (g url))
    got_at url h =
        get_json-Scoped parse (g url) suffix (rw (same url).0 (join-ok suffix url h).0)
          ((same url).1 ∙ (join-ok suffix url h).1)

    got :
        Scoped (lift (join p codec client suffix) >>= λ url. get_json p codec client parse (g url))
    got = lift>>=-Exchanges client.http _ IsDone _ _ got_at

    got_part :
        {B : Type 0} (f : A → B)
        → Scoped (
            lift (join p codec client suffix) >>= λ url.
            get_json p codec client parse (g url) >>= λ a. pure (f a))
    got_part f =
        lift>>=-Exchanges client.http _ IsDone _ _
          (λ url h. >>=-Exchanges client.http _ IsDone _ _ (got_at url h) (λ a. pure-IsSilent _))

  sent :
      {A : Type 0} (parse : String → Result String A) (suffix : String) (method : Method)
      (body : Value)
      → Scoped (
          lift (join p codec client suffix) >>= λ url.
          send_json p codec client parse method url body)
  sent parse suffix method body = lift>>=-Exchanges client.http _ IsDone _ _ (λ url h.
      send_json-Scoped parse url suffix (join-ok suffix url h).0 (join-ok suffix url h).1 method
        body)

  -- Every CRUD call makes at most one exchange, of a scoped request. A call that makes none fails
  -- and changes nothing, and one that succeeds was answered by a 200 or a 201.
  pub run-IsScoped : (o : Operation) → Exchanges client.http IsScoped IsDone (run p codec client o)
  unfolding run Client.list Client.get Client.list_versions Client.get_version Client.diff
      Client.list_templates Client.get_template Changes.create Changes.validate Changes.update
      Changes.activate Changes.deactivate Changes.activate_category Changes.deactivate_category
      Changes.delete Changes.evaluate_batch Changes.mine Changes.install_template
      Changes.lab_template Changes.rollback
  run-IsScoped (Operation.list include_deleted) =
      got_part codec.parse_policies _ (list_url p codec client include_deleted)
        (list_url-same p codec client include_deleted) (λ resp. resp.policies)
  run-IsScoped (Operation.get name) = got codec.parse_detail _ (λ url. url) (λ url. (refl, refl))
  run-IsScoped (Operation.list_versions name) =
      got_part codec.parse_versions _ (λ url. url) (λ url. (refl, refl)) (λ resp. resp.versions)
  run-IsScoped (Operation.get_version name version) =
      got codec.parse_version _ (λ url. url) (λ url. (refl, refl))
  run-IsScoped (Operation.diff name from to) =
      got codec.parse_diff _ (diff_url p codec client from to) (λ url. (
        refl,
        unnamed "tenant" "to" _ (url.query ++ ("from", show_int from) ∷ []) refl
            ∙ unnamed "tenant" "from" _ url.query refl,
      ))
  run-IsScoped Operation.list_templates =
      got codec.parse_templates _ (λ url. url) (λ url. (refl, refl))
  run-IsScoped (Operation.get_template name) =
      got codec.parse_template _ (λ url. url) (λ url. (refl, refl))
  run-IsScoped (Operation.create req) = sent _ _ _ _
  run-IsScoped (Operation.validate req) = sent _ _ _ _
  run-IsScoped (Operation.update name req) = sent _ _ _ _
  run-IsScoped (Operation.activate name req) = sent _ _ _ _
  run-IsScoped (Operation.deactivate name req) = sent _ _ _ _
  run-IsScoped (Operation.activate_category domain req) = sent _ _ _ _
  run-IsScoped (Operation.deactivate_category domain req) = sent _ _ _ _
  run-IsScoped (Operation.delete name req) = sent _ _ _ _
  run-IsScoped (Operation.evaluate_batch req) = sent _ _ _ _
  run-IsScoped (Operation.mine req) = sent _ _ _ _
  run-IsScoped (Operation.install_template name req) = sent _ _ _ _
  run-IsScoped (Operation.lab_template name req) = sent _ _ _ _
  run-IsScoped (Operation.rollback name version req) = sent _ _ _ _
