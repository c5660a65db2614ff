-- ===== src/Agents/Authorized.antt =====
-- Every call of `AgentsClient` (src/agents.rs) carries the bearer and names its tenant.
use clavenar_sdk.Prelude.{ℕ, ◌≡◌, refl, String, ◌<>◌, Option, none, some, List, [], ◌∷◌}
use clavenar_sdk.Effects.{Result, ok}
use clavenar_sdk.Json.{Value, Fields, object, string}
use clavenar_sdk.Platform.{Platform}
use clavenar_sdk.Service.{Url, Method, json, no_body, Request, request, with_auth}
use clavenar_sdk.Service.Authorization.{
  authorizations, bearers, IsDone, with_auth-authorizations, with_auth-url, perform-Exchanges,
}
use clavenar_sdk.Service.Exchange.{Exchanges}
use clavenar_sdk.Service.Members.{members}
use clavenar_sdk.Service.Text.{codes, percent_text}
use clavenar_sdk.Agents.Client.{AgentsCodec, AgentsClient, Action, get_json, post_json}
use clavenar_sdk.Agents.Operations.{IsSegment}

module _ (p : Platform) (base : String) (tenant : String) where
  -- The tenant is the first parameter of the query; or the second segment of the path that is joined,
  -- and no dot segment, which joining would remove; or the one member of this name in the JSON body.
  pub data NamesTenant (r : Request) : Type 0 where
    in_query :
        (rest : List (String × String)) → r.url.query ≡ ("tenant", tenant) ∷ rest → NamesTenant r
    in_path :
        (rest : String) (more : List ℕ)
        → IsSegment tenant
        → codes rest ≡ 47 ∷ more
        → p.url_join base ("tenants/" <> (percent_text tenant <> rest)) ≡ ok r.url.location
        → NamesTenant r
    in_body :
        (fields : Fields)
        → r.body ≡ json (object fields)
        → members "tenant" fields ≡ string tenant ∷ []
        → NamesTenant r

  -- The request goes to a URL joined to the base, with the bearer if there is one and no other
  -- authorization, and names the tenant.
  abbrev pub IsAuthorized : Option String → Request → Type 0
  IsAuthorized bearer r =
      (authorizations r.headers ≡ bearers bearer)
      × ((path : String) × (p.url_join base path ≡ ok r.url.location))
      × NamesTenant r

  pub with_auth-IsAuthorized :
      (b : Option String) (r : Request) (path : String)
      → authorizations r.headers ≡ []
      → p.url_join base path ≡ ok r.url.location
      → NamesTenant r
      → IsAuthorized b (with_auth b r)
  with_auth-IsAuthorized b r path fresh e n =
      (with_auth-authorizations b r fresh, (path, rw (with_auth-url b r) e), named b n)
    where
      named : (b' : Option String) → NamesTenant r → NamesTenant (with_auth b' r)
      named none n' = n'
      named (some token) (in_query rest q) = in_query rest q
      named (some token) (in_path rest more d c q) = in_path rest more d c q
      named (some token) (in_body fields q q') = in_body fields q q'

module _ (p : Platform) (codec : AgentsCodec) {W : Type 0} (client : AgentsClient W)
    (tenant : String) where
  abbrev pub Authorized : {A : Type 0} → Action p codec client A → Type 0
  Authorized op =
      Exchanges client.http (IsAuthorized p client.base_url tenant client.bearer) IsDone op

  module _ {A : Type 0} (parse : String → Result String A) (url : Url) (path : String)
      (e : p.url_join client.base_url path ≡ ok url.location) where
    pub get_json-Authorized :
        NamesTenant p client.base_url tenant (request Method.get url no_body)
        → Authorized (get_json p codec client parse url)
    unfolding get_json
    get_json-Authorized n = perform-Exchanges p client.http _ parse _ (
        with_auth-IsAuthorized p client.base_url tenant client.bearer
          (request Method.get url no_body) path refl e n)

    pub post_json-Authorized :
        (body : Value)
        → NamesTenant p client.base_url tenant (request Method.post url (json body))
        → Authorized (post_json p codec client parse url body)
    unfolding post_json
    post_json-Authorized body n = perform-Exchanges p client.http _ parse _ (
        with_auth-IsAuthorized p client.base_url tenant client.bearer
          (request Method.post url (json body)) path refl e n)
