-- ===== src/Transport/Rotation.antt =====
-- What reloads of the credentials in src/secure_transport.rs publish.
use clavenar_sdk.Prelude.{
  ℕ, ◌≡◌, ◌≢◌, refl, sym, ap, subst, ◌∙◌, arith, false, ◌||◌, ◌==◌, nat_eq, String, List, [], ◌∷◌,
  ◌++◌, ◌⊎◌, inl, inr, Bool-cases, length,
}
use clavenar_sdk.Effects.{Result, ok, err, map_err}
use clavenar_sdk.Effects.Plain.{◌>>=◌, >>-ok, and_then-ok, reject_if-false}
use clavenar_sdk.Error.{ClavenarError, transport}
use clavenar_sdk.Transport.{
  SecureTransportConfig, Environment, TlsApi, Settings, SecureTransportProfile, build_client,
  new_profile, reload, publish, read_nonempty, with_newline, load_token, authorization_of, proxy_of,
}

differ : {e : ClavenarError} → ◌≡◌ {A = Result ClavenarError (Unit {0})} (err e) (ok tt) → ⊥
differ h = cc

module _ (api : TlsApi) where
  -- What a reload says of the profile before and after it.
  pub record IsAtomic (env : Environment) (before after : SecureTransportProfile api)
      (r : Result ClavenarError (Unit {0})) : Type 0 where
    pub replaced : r ≡ ok tt → build_client api env before.config ≡ ok after.current
    pub kept : (e : ClavenarError) → r ≡ err e → after ≡ before
    pub same_config : after.config ≡ before.config

  publish-IsAtomic :
      (env : Environment) (profile : SecureTransportProfile api)
      (r : Result ClavenarError api.Client)
      → build_client api env profile.config ≡ r
      → IsAtomic env profile (publish api r profile).1 (publish api r profile).0
  publish-IsAtomic env profile (err e) h = record {
    replaced = λ k. absurd (differ k);
    kept = λ e k. refl;
    same_config = refl;
  }
  publish-IsAtomic env profile (ok client) h = elim (Bool-cases profile.poisoned) [
    | inl e ↦
        rw e (record { replaced = λ k. absurd (differ k); kept = λ e k. refl; same_config = refl })
    | inr e ↦
        rw e
          (record { replaced = λ k. h; kept = λ e k. absurd (differ (sym k)); same_config = refl })
  ]

  -- A reload that succeeds publishes the client that was built from the new credentials, and one
  -- that fails, for any reason, leaves the profile as it was; neither changes the configuration.
  pub reload-IsAtomic :
      (env : Environment) (profile : SecureTransportProfile api)
      → IsAtomic env profile (reload api env profile).1 (reload api env profile).0
  unfolding reload
  reload-IsAtomic env profile =
      publish-IsAtomic env profile (build_client api env profile.config) refl

  abbrev pub reload_all : List Environment → SecureTransportProfile api → SecureTransportProfile api
  reload_all [] profile = profile
  reload_all (env ∷ envs) profile = reload_all envs (reload api env profile).1

  -- The client was built by one of the environments.
  abbrev pub IsBuiltBy : SecureTransportConfig → api.Client → List Environment → Type 0
  IsBuiltBy config client [] = ⊥
  IsBuiltBy config client (env ∷ envs) =
      (build_client api env config ≡ ok client) ⊎ IsBuiltBy config client envs

  -- Either nothing was published, or the client in use was built by one of the reloads.
  abbrev Known : List Environment → SecureTransportProfile api → SecureTransportProfile api → Type 0
  Known envs before after =
      (after.current ≡ before.current) ⊎ IsBuiltBy before.config after.current envs

  step :
      (env : Environment) (envs : List Environment)
      (before middle after : SecureTransportProfile api) (r : Result ClavenarError (Unit {0}))
      → IsAtomic env before middle r
      → Known envs middle after
      → Known (env ∷ envs) before after
  step env envs before middle after r atomic (inr built) =
      inr (inr (subst (λ c. IsBuiltBy c after.current envs) atomic.same_config built))
  step env envs before middle after (ok tt) atomic (inl same) =
      inr (inl (atomic.replaced refl ∙ ap ok (sym same)))
  step env envs before middle after (err e) atomic (inl same) =
      inl (same ∙ ap (λ (x : SecureTransportProfile api). x.current) (atomic.kept e refl))

  reload_all-Known :
      (envs : List Environment) (profile : SecureTransportProfile api)
      → Known envs profile (reload_all envs profile)
  reload_all-Known [] profile = inl refl
  reload_all-Known (env ∷ envs) profile =
      step env envs profile (reload api env profile).1 (reload_all envs (reload api env profile).1)
        (reload api env profile).0 (reload-IsAtomic env profile)
        (reload_all-Known envs (reload api env profile).1)

  -- Credentials are never mixed: after a start and any number of reloads, successful or not, the
  -- client that requests get was built whole from what one start or reload read, under the
  -- configuration of the start.
  pub reload_all-IsBuiltBy :
      (first : Environment) (config : SecureTransportConfig) (profile : SecureTransportProfile api)
      (envs : List Environment)
      → new_profile api first config ≡ ok profile
      → IsBuiltBy config (reload_all envs profile).current (first ∷ envs)
  unfolding new_profile
  reload_all-IsBuiltBy first config profile envs h = started (build_client api first config) refl h
    where
      same_profile :
          {x y : SecureTransportProfile api}
          → ◌≡◌ {A = Result ClavenarError (SecureTransportProfile api)} (ok x) (ok y)
          → x ≡ y
      same_profile e = cc

      finish :
          (start : SecureTransportProfile api)
          → build_client api first start.config ≡ ok start.current
          → Known envs start (reload_all envs start)
          → IsBuiltBy start.config (reload_all envs start).current (first ∷ envs)
      finish start b (inl same) = inl (b ∙ ap ok (sym same))
      finish start b (inr built) = inr built

      started :
          (r : Result ClavenarError api.Client)
          → build_client api first config ≡ r
          → (r >>= λ client. ok (record { config = config; current = client; poisoned = false }))
            ≡ ok profile
          → IsBuiltBy config (reload_all envs profile).current (first ∷ envs)
      started (err e) b k = cc
      started (ok client) b k =
          subst
            (λ (x : SecureTransportProfile api).
              IsBuiltBy config (reload_all envs x).current (first ∷ envs))
            (same_profile k) (finish _ b (reload_all-Known envs _))

  -- What a client holds of the environment.
  pub record IsSnapshot (env : Environment) (config : SecureTransportConfig) (client : api.Client)
      : Type 0 where
    pub settings : Settings api.Certificate api.Identity api.Proxy
    pub built : api.build settings ≡ ok client
    pub timeouts : (settings.connect_timeout ≢ 0) × (settings.timeout ≢ 0)
    pub ca_pem : List ℕ
    pub cert_pem : List ℕ
    pub key_pem : List ℕ
    pub ca_read : (env.read config.ca_bundle_path ≡ ok ca_pem) × (length ca_pem ≢ 0)
    pub cert_read : (env.read config.client_certificate_path ≡ ok cert_pem) × (length cert_pem ≢ 0)
    pub key_read : (env.read config.private_key_path ≡ ok key_pem) × (length key_pem ≢ 0)
    pub root : api.certificate_from_pem ca_pem ≡ ok settings.root
    pub identity :
        api.identity_from_pem (with_newline api cert_pem ++ key_pem) ≡ ok settings.identity

  from_map_err :
      {E F A : Type 0} (f : E → F) (r : Result E A) {a : A} → map_err f r ≡ ok a → r ≡ ok a
  from_map_err f (ok a) h = cc
  from_map_err f (err e) h = cc

  read_nonempty-ok :
      (env : Environment) (path label : String) {bytes : List ℕ}
      → read_nonempty env path label ≡ ok bytes
      → (env.read path ≡ ok bytes) × (length bytes ≢ 0)
  unfolding read_nonempty
  read_nonempty-ok env path label {bytes} h =
      let (got, e0, h0) = and_then-ok _ _ h in
      let (filled, h1) = >>-ok _ _ h0 in
      let same : got ≡ bytes = cc in
      (
        subst (λ b. env.read path ≡ ok b) same (from_map_err _ _ e0),
        subst (λ (b : List ℕ). length b ≢ 0) same (positive _ (reject_if-false _ _ filled)),
      )
    where
      positive : (n : ℕ) → (n == 0) ≡ false → n ≢ 0
      positive n h = ground arith

  -- A client is built only with positive timeouts, from a CA bundle, a certificate and a key that
  -- were all read and not empty, the identity being the certificate followed by the key on a line
  -- of its own.
  pub build_client-IsSnapshot :
      (env : Environment) (config : SecureTransportConfig) (client : api.Client)
      → build_client api env config ≡ ok client
      → IsSnapshot env config client
  unfolding build_client
  build_client-IsSnapshot env config client h =
      let (timed, h0) = >>-ok _ _ h in
      let (ca_pem, e1, h1) = and_then-ok _ _ h0 in
      let (cert_pem, e2, h2) = and_then-ok _ _ h1 in
      let (key_pem, e3, h3) = and_then-ok _ _ h2 in
      let (root, e4, h4) = and_then-ok _ _ h3 in
      let (identity, e5, h5) = and_then-ok _ _ h4 in
      let (token, e6, h6) = and_then-ok (load_token api env config.token_source) _ h5 in
      let (authorization, e7, h7) = and_then-ok (authorization_of api token) _ h6 in
      let (proxy, e8, h8) = and_then-ok (proxy_of api config.proxy) _ h7 in
      record {
        settings = record {
          root = root;
          identity = identity;
          connect_timeout = config.connect_timeout;
          timeout = config.request_timeout;
          authorization = authorization;
          proxy = proxy;
        };
        built = from_map_err transport _ h8;
        timeouts = both config.connect_timeout config.request_timeout (reject_if-false _ _ timed);
        ca_pem = ca_pem;
        cert_pem = cert_pem;
        key_pem = key_pem;
        ca_read = read_nonempty-ok env _ _ e1;
        cert_read = read_nonempty-ok env _ _ e2;
        key_read = read_nonempty-ok env _ _ e3;
        root = from_map_err _ _ e4;
        identity = from_map_err _ _ e5;
      }
    where
      both : (a b : ℕ) → (a == 0 || b == 0) ≡ false → (a ≢ 0) × (b ≢ 0)
      both a b h = ground arith
