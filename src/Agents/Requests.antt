-- ===== src/Agents/Requests.antt =====
-- The shapes of the requests of `AgentsClient` (src/agents.rs), each of them authorized.
use clavenar_sdk.Prelude.{ℕ, ◌≡◌, refl, String, Option, none, some, List, [], ◌∷◌, ◌++◌, ap, ◌∙◌}
use clavenar_sdk.Effects.{Result, ok, err, lift, ◌>>=◌}
use clavenar_sdk.Error.{ClavenarError}
use clavenar_sdk.Json.{Value, Fields, string, array, end, field}
use clavenar_sdk.Platform.{Platform}
use clavenar_sdk.Service.{
  Url, Method, json, Request, perform, append_some, with_auth, request, map_url, append_pair,
  join_as,
}
use clavenar_sdk.Service.Authorization.{authorizations, IsDone, perform-Exchanges}
use clavenar_sdk.Service.Exchange.{lift>>=-Exchanges, >>=-Exchanges, pure-IsSilent}
use clavenar_sdk.Agents.Client.{
  AgentsCodec, AgentsClient, Action, join, id_with_tenant, agent_path, get_json, post_json,
  list_url, state_text, grants_url,
}
use clavenar_sdk.Agents.Bodies.{create_json}
use clavenar_sdk.Service.Joined.{join_as-ok}
use clavenar_sdk.Service.Body.{strings, some_text}
use clavenar_sdk.Service.Members.{members, members-other_text}
use clavenar_sdk.Service.Text.{codes}
use clavenar_sdk.Agents.Operations.{IsSegment}
use clavenar_sdk.Agents.{CreateAgentRequest}
use clavenar_sdk.Agents.Records.{AgentListFilter}
use clavenar_sdk.Agents.Client
use clavenar_sdk.Agents.Tenants.{tenant_path}
use clavenar_sdk.Agents.Authorized.{
  in_query, in_path, in_body, with_auth-IsAuthorized, Authorized, get_json-Authorized,
  post_json-Authorized,
}

with_tenant-ok :
    (x : Result ClavenarError Url) (tenant : String) (url : Url)
    → map_url (append_pair "tenant" tenant) x ≡ ok url
    → (url' : Url) × (x ≡ ok url') × (url ≡ append_pair "tenant" tenant url')
with_tenant-ok (ok url') tenant url h = (url', refl, cc)
with_tenant-ok (err e) tenant url h = cc

append_some-location :
    (key : String) (value : Option String) (url : Url)
    → (append_some key value url).location ≡ url.location
append_some-location key none url = refl
append_some-location key (some v) url = refl

append_some-query :
    (key : String) (value : Option String) (url : Url) (t : String × String)
    → ((rest : List (String × String)) × (url.query ≡ t ∷ rest))
    → (rest : List (String × String)) × ((append_some key value url).query ≡ t ∷ rest)
append_some-query key none url t (rest, q) = (rest, q)
append_some-query key (some v) url t (rest, q) =
    (rest ++ (key, v) ∷ [], ap (λ xs. xs ++ (key, v) ∷ []) q)

module _ (p : Platform) (codec : AgentsCodec) {W : Type 0} (client : AgentsClient W) where
  -- The calls on one agent.
  module _ {A : Type 0} (parse : String → Result String A) (id verb tenant : String) where
    agent_url :
        (url : Url)
        → id_with_tenant p codec client id verb tenant ≡ ok url
        → (p.url_join client.base_url (agent_path p codec client id verb) ≡ ok url.location)
          × (url.query ≡ ("tenant", tenant) ∷ [])
    unfolding id_with_tenant
    agent_url url h = from_parts (with_tenant-ok _ tenant url h)
      where
        from_parts :
            (url' : Url) × (join_as p
                  (agent_path p codec client id verb)
                  client.base_url
                  (agent_path p codec client id verb)
                ≡ ok url')
              × (url ≡ append_pair "tenant" tenant url')
            → (p.url_join client.base_url (agent_path p codec client id verb) ≡ ok url.location)
              × (url.query ≡ ("tenant", tenant) ∷ [])
        from_parts (url', e, q) =
            let (e1, e2) = join_as-ok p _ client.base_url _ url' e in
            (rw q e1, rw q (ap (λ xs. xs ++ ("tenant", tenant) ∷ []) e2))

    pub agent_get : Authorized p codec client tenant (
        lift (id_with_tenant p codec client id verb tenant) >>= λ url.
        get_json p codec client parse url)
    agent_get = lift>>=-Exchanges client.http _ IsDone _ _ (λ url h.
        get_json-Authorized p codec client tenant parse url _ (agent_url url h).0
          (in_query [] (agent_url url h).1))

    pub agent_post :
        (body : Value)
        → Authorized p codec client tenant (
            lift (id_with_tenant p codec client id verb tenant) >>= λ url.
            post_json p codec client parse url body)
    agent_post body = lift>>=-Exchanges client.http _ IsDone _ _ (λ url h.
        post_json-Authorized p codec client tenant parse url _ (agent_url url h).0 body
          (in_query [] (agent_url url h).1))

  -- The calls on one tenant.
  module _ {A : Type 0} (parse : String → Result String A) (tenant rest : String) (more : List ℕ)
      (d : IsSegment tenant) (c : codes rest ≡ 47 ∷ more) where
    tenant_url :
        (url : Url)
        → join p codec client (tenant_path p codec client tenant rest) ≡ ok url
        → p.url_join client.base_url (tenant_path p codec client tenant rest) ≡ ok url.location
    unfolding join
    tenant_url url h = (join_as-ok p _ client.base_url _ url h).0

    pub tenant_get : Authorized p codec client tenant (
        lift (join p codec client (tenant_path p codec client tenant rest)) >>= λ url.
        get_json p codec client parse url)
    tenant_get = lift>>=-Exchanges client.http _ IsDone _ _ (λ url h.
        get_json-Authorized p codec client tenant parse url _ (tenant_url url h)
          (in_path rest more d c (tenant_url url h)))

    pub tenant_post :
        (body : Value)
        → Authorized p codec client tenant (
            lift (join p codec client (tenant_path p codec client tenant rest)) >>= λ url.
            post_json p codec client parse url body)
    tenant_post body = lift>>=-Exchanges client.http _ IsDone _ _ (λ url h.
        post_json-Authorized p codec client tenant parse url _ (tenant_url url h) body
          (in_path rest more d c (tenant_url url h)))

  -- The queries of a list.
  pub listed :
      {A : Type 0} (parse : String → Result String A) (path tenant : String) (g : Url → Url)
      → ((url : Url) → (g url).location ≡ url.location)
      → ((url : Url)
          → url.query ≡ []
          → (rest : List (String × String)) × ((g url).query ≡ ("tenant", tenant) ∷ rest))
      → Authorized p codec client tenant (
          lift (join_as p path client.base_url path) >>= λ url.
          get_json p codec client parse (g url))
  listed parse path tenant g same named = lift>>=-Exchanges client.http _ IsDone _ _ (λ url h.
      let (e, q) = join_as-ok p path client.base_url path url h in
      get_json-Authorized p codec client tenant parse (g url) path (rw (same url) e)
        (in_query (named url q).0 (named url q).1))

  pub list-Authorized :
      (tenant : String) (filter : AgentListFilter)
      → Authorized p codec client tenant (Client.list p codec client tenant filter)
  unfolding Client.list
  list-Authorized tenant filter =
      listed codec.parse_rows "agents" tenant (list_url p codec client tenant filter)
        (λ url.
          append_some-location "owner_team" filter.owner_team _
          ∙ append_some-location "state" (state_text p codec client filter.state) _)
        (λ url q. append_some-query "owner_team" filter.owner_team _ _ (
          append_some-query "state" (state_text p codec client filter.state) _ _
            ([], ap (λ xs. xs ++ ("tenant", tenant) ∷ []) q)))

  pub grants-Authorized :
      (tenant agent_name : String)
      → Authorized p codec client tenant
          (Client.list_active_grants p codec client tenant agent_name)
  unfolding Client.list_active_grants
  grants-Authorized tenant agent_name = lift>>=-Exchanges client.http _ IsDone _ _ (λ url h.
      let (e, q) = join_as-ok p "grants" client.base_url "grants" url h in
      >>=-Exchanges client.http _ IsDone _ _
        (get_json-Authorized p codec client tenant codec.parse_grants
          (grants_url p codec client tenant agent_name url) "grants" e
          (in_query (("agent_name", agent_name) ∷ ("active", "true") ∷ []) (
            ap
              (λ xs.
                ((xs ++ ("tenant", tenant) ∷ []) ++ ("agent_name", agent_name) ∷ [])
                ++ ("active", "true") ∷ [])
              q)))
        (λ a. pure-IsSilent _))

  pub create-Authorized :
      (req : CreateAgentRequest)
      → Authorized p codec client req.tenant (Client.create p codec client req)
  unfolding Client.create join
  create-Authorized req = lift>>=-Exchanges client.http _ IsDone _ _ (λ url h.
      post_json-Authorized p codec client req.tenant codec.parse_created url "agents"
        (join_as-ok p "agents" client.base_url "agents" url h).0 (create_json req)
        (in_body (fields_of req) refl (names_tenant req)))
    where
      fields_of : CreateAgentRequest → Fields
      fields_of r = field "tenant" (string r.tenant) (
          field "agent_name" (string r.agent_name) (
            field "owner_team" (string r.owner_team) (
              field "scope_envelope" (array (strings r.scope_envelope)) (
                field "yellow_envelope" (array (strings r.yellow_envelope)) (
                  field "attestation_kinds" (array (strings r.attestation_kinds)) (
                    some_text "description" r.description
                      (some_text "actor_sub" r.actor_sub end)))))))

      names_tenant :
          (r : CreateAgentRequest) → members "tenant" (fields_of r) ≡ string r.tenant ∷ []
      names_tenant r =
          ap (λ vs. string r.tenant ∷ vs)
            (members-other_text "tenant" "description" r.description _ refl
              ∙ members-other_text "tenant" "actor_sub" r.actor_sub end refl)

  -- The calls with headers of their own.
  module _ {A : Type 0} (parse : String → Result String A) (tenant rest : String) (more : List ℕ)
      (d : IsSegment tenant) (c : codes rest ≡ 47 ∷ more) (headers : Request → Request)
      (body : Value)
      (fresh : (url : Url)
        → (authorizations (headers (request Method.post url (json body))).headers ≡ [])
          × ((headers (request Method.post url (json body))).url ≡ url)) where
    pub headed : Authorized p codec client tenant (
        lift (join p codec client (tenant_path p codec client tenant rest)) >>= λ url.
        perform p client.http parse
          (with_auth client.bearer (headers (request Method.post url (json body)))))
    headed = lift>>=-Exchanges client.http _ IsDone _ _ (λ url h.
        perform-Exchanges p client.http _ parse _ (
          with_auth-IsAuthorized p client.base_url tenant client.bearer
            (headers (request Method.post url (json body))) (tenant_path p codec client tenant rest)
            (fresh url).0 (rw (fresh url).1 (tenant_url parse tenant rest more d c url h))
            (in_path rest more d c
              (rw (fresh url).1 (tenant_url parse tenant rest more d c url h)))))
