-- ===== src/Ledger/Export.antt =====
-- `LedgerClient::regulatory_export` of src/ledger.rs: what is asked for, and what is returned.
use clavenar_sdk.Prelude.{
  ℕ, ◌≤◌, ◌≡◌, refl, sym, ap, ◌∙◌, String, ◌<>◌, Bool, true, false, Option, none, some, List, [],
  ◌∷◌, ◌++◌, if◌then◌else◌, length,
}
use mathlib.Core.List.{append_assoc, append-nil}
use clavenar_sdk.Effects.{Result, ok, err, ok_or, lift}
use clavenar_sdk.Effects.Inversion.{lift>>=-ok, >>=-ok}
use clavenar_sdk.Error.{ClavenarError}
use clavenar_sdk.Http.{read_body_limited, binary_response_body_limit}
use clavenar_sdk.Http.Bounds.{read_body_limited-ok}
use clavenar_sdk.Http.Percent.{percent_encode}
use clavenar_sdk.Platform.{Platform}
use clavenar_sdk.Service.{
  Url, Method, Payload, no_body, Request, Reply, is_success, reply_text, send,
}
use clavenar_sdk.Service.Codes.{codes-append, codes-percent_text}
use clavenar_sdk.Service.Exchange.{lift-IsSilent, Exchanges, send>>=-Exchanges, lift>>=-Exchanges}
use clavenar_sdk.Service.Joined.{join_as-ok}
use clavenar_sdk.Service.Text.{codes, utf8, percent_text}
use clavenar_sdk.Ledger.Records.{RegulatoryExportOptions}
use clavenar_sdk.Ledger.Query.{push}
use clavenar_sdk.Ledger.Client.{LedgerCodec, LedgerClient}
use clavenar_sdk.Ledger.Cases.{
  export_request, push_flag, export_path, read_export, refused_with, regulatory_export,
}

-- A flag that is set.
abbrev pub flag : String → Bool → List ℕ
flag name true = codes name
flag name false = []

-- The path that asks for a tenant's export from one time to another, with the flags that are set.
abbrev pub window : String → String → String → RegulatoryExportOptions → List ℕ
window tenant from to opts =
    codes "export/regulatory?tenant="
    ++ (percent_encode (utf8 tenant)
        ++ (codes "&from="
            ++ (percent_encode (utf8 from)
                ++ (codes "&to="
                    ++ (percent_encode (utf8 to)
                        ++ (flag "&include_exports=true" opts.include_exports
                            ++ flag "&include_compliance=true" opts.include_compliance))))))

-- A readme is the body, as Markdown.
abbrev pub Carries : Option (List ℕ) → Request → Type 0
Carries none r = (r.body ≡ no_body) × (r.headers ≡ [])
Carries (some readme) r =
    (r.body ≡ Payload.bytes readme) × (r.headers ≡ ("content-type", "text/markdown") ∷ [])

codes-flag :
    (name whole path : String) (b : Bool)
    → ("&" <> (name <> ("=" <> "true"))) ≡ whole
    → codes (push_flag name b path) ≡ codes path ++ flag whole b
unfolding push
codes-flag name whole path true e = codes-append path _ ∙ ap (λ s. codes path ++ codes s) e
codes-flag name whole path false e = sym (append-nil (codes path))

codes-base :
    (tenant from to : String)
    → codes (
        "export/regulatory?tenant="
        <> (percent_text tenant
            <> ("&from=" <> (percent_text from <> ("&to=" <> percent_text to)))))
      ≡ codes "export/regulatory?tenant="
        ++ (percent_encode (utf8 tenant)
            ++ (codes "&from="
                ++ (percent_encode (utf8 from) ++ (codes "&to=" ++ percent_encode (utf8 to)))))
codes-base tenant from to =
    rw
      (
        codes-append "export/regulatory?tenant=" _,
        codes-append (percent_text tenant) _,
        codes-append "&from=" _,
        codes-append (percent_text from) _,
        codes-append "&to=" (percent_text to),
        codes-percent_text tenant,
        codes-percent_text from,
        codes-percent_text to,
      )
      refl

-- What a success of `read_export` says.
read_export-ok :
    (p : Platform) (codec : LedgerCodec) {W : Type 0} (client : LedgerClient W) (reply : Reply)
    (bytes : List ℕ)
    → read_export p codec client reply ≡ ok bytes
    → (is_success reply.response.status ≡ true) × (length bytes ≤ binary_response_body_limit)
read_export-ok p codec client reply bytes h = from_test (is_success reply.response.status) refl h
  where
    refused :
        (x : Result ClavenarError String) → refused_with x reply.response.status ≡ ok bytes → ⊥
    refused (ok body) k = cc
    refused (err e) k = cc

    from_test :
        (b : Bool)
        → is_success reply.response.status ≡ b
        → (if b
            then read_body_limited reply.response binary_response_body_limit
            else refused_with (reply_text p reply) reply.response.status)
          ≡ ok bytes
        → (is_success reply.response.status ≡ true) × (length bytes ≤ binary_response_body_limit)
    from_test true q k =
        (q, (read_body_limited-ok reply.response binary_response_body_limit bytes k).1)
    from_test false q k = absurd (refused (reply_text p reply) k)

module _ (p : Platform) (codec : LedgerCodec) {W : Type 0} (client : LedgerClient W) where
  export_path-window :
      (tenant from to : String) (opts : RegulatoryExportOptions)
      → codes (export_path p codec client tenant from to opts)
        ≡ window tenant (codec.rfc3339_secs from) (codec.rfc3339_secs to) opts
  export_path-window tenant from to opts =
      codes-flag "include_compliance" "&include_compliance=true" _ opts.include_compliance refl
      ∙ (ap (λ xs. xs ++ flag "&include_compliance=true" opts.include_compliance)
            (codes-flag "include_exports" "&include_exports=true" _ opts.include_exports refl
              ∙ ap (λ xs. xs ++ flag "&include_exports=true" opts.include_exports)
                  (codes-base tenant (codec.rfc3339_secs from) (codec.rfc3339_secs to)))
          ∙ simp append_assoc)

  -- The request of an export: a POST of the readme to the authenticated tenant's window, at a URL
  -- joined to the base.
  abbrev pub IsExport : String → String → RegulatoryExportOptions → Request → Type 0
  IsExport from to opts r =
      (tenant : String) × (opts.tenant ≡ some tenant)
      × (r.method ≡ Method.post)
      × Carries opts.readme r
      × ((path : String) × (p.url_join client.base_url path ≡ ok r.url.location)
          × (codes path ≡ window tenant (codec.rfc3339_secs from) (codec.rfc3339_secs to) opts))

  export_request-Carries :
      (readme : Option (List ℕ)) (url : Url)
      → ((export_request readme url).method ≡ Method.post)
        × Carries readme (export_request readme url)
  export_request-Carries none url = (refl, (refl, refl))
  export_request-Carries (some readme) url = (refl, (refl, refl))

  export_request-url :
      (readme : Option (List ℕ)) (url : Url) → (export_request readme url).url ≡ url
  export_request-url none url = refl
  export_request-url (some readme) url = refl

  export_bounded :
      (from to : String) (opts : RegulatoryExportOptions) (w w' : W) (bytes : List ℕ)
      → regulatory_export p codec client from to opts w ≡ (ok bytes, w')
      → length bytes ≤ binary_response_body_limit
  unfolding regulatory_export lift
  export_bounded from to opts w w' bytes h =
      let (tenant, _, h1) = lift>>=-ok _ _ w h in
      let (url, _, h2) = lift>>=-ok _ _ w h1 in
      let (reply, _, h3) = >>=-ok (send client.http (export_request opts.readme url)) _ w h2 in
      (read_export-ok p codec client reply bytes (unlift (read_export p codec client reply) _ h3)).1
    where
      unlift :
          (x : Result ClavenarError (List ℕ)) (v : W) → lift x v ≡ (ok bytes, w') → x ≡ ok bytes
      unlift x v k = ap (λ y. y.0) k

  -- An export without a tenant fails and sends nothing. With a tenant at most one request is sent: a
  -- POST of the readme, if there is one, whose query is exactly that tenant, the start and the end of
  -- the window, each encoded, and the flags that are set. An export that succeeds was answered by a
  -- success and returns at most 64 MiB.
  pub regulatory_export-IsExport :
      (from to : String) (opts : RegulatoryExportOptions)
      → Exchanges client.http
          (IsExport from to opts)
          (λ status. is_success status ≡ true)
          (regulatory_export p codec client from to opts)
        × ((w : W) (bytes : List ℕ)
            → (regulatory_export p codec client from to opts w).0 ≡ ok bytes
            → length bytes ≤ binary_response_body_limit)
  unfolding regulatory_export lift
  regulatory_export-IsExport from to opts = (
    lift>>=-Exchanges client.http (IsExport from to opts) _ _ _ (λ tenant h.
        lift>>=-Exchanges client.http (IsExport from to opts) _ _ _ (λ url j.
          send>>=-Exchanges client.http (IsExport from to opts) (λ status. is_success status ≡ true)
            (export_request opts.readme url) (λ reply. lift (read_export p codec client reply))
            (
              tenant,
              has_tenant _ opts.tenant h,
              (export_request-Carries opts.readme url).0,
              (export_request-Carries opts.readme url).1,
              (
                export_path p codec client tenant from to opts,
                rw (export_request-url opts.readme url) (join_as-ok p _ client.base_url _ url j).0,
                export_path-window tenant from to opts,
              ),
            )
            (λ reply. lift-IsSilent (read_export p codec client reply))
            (λ reply w a k. (read_export-ok p codec client reply a k).0))),
    λ w bytes h.
        export_bounded from to opts w _ bytes
          (ap (λ x. (x, (regulatory_export p codec client from to opts w).1)) h),
  )
    where
      has_tenant :
          (e : ClavenarError) {tenant : String} (o : Option String)
          → ok_or o e ≡ ok tenant
          → o ≡ some tenant
      has_tenant e none k = cc
      has_tenant e (some t) k = cc
