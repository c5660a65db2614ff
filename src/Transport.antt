-- ===== src/Transport.antt =====
-- The rotation of credentials in src/secure_transport.rs. Files are read through an environment,
-- which changes between reloads; certificates, identities and clients are of the TLS library.
pub mod Rotation
use clavenar_sdk.Prelude.{
  ℕ, Bool, true, false, ◌||◌, String, ◌<>◌, Option, none, some, List, [], ◌∷◌, ◌++◌, ◌==◌, nat_eq,
  string_eq, if◌then◌else◌, length,
}
use clavenar_sdk.Effects.{Result, ok, err, map_err}
use clavenar_sdk.Effects.Plain.{◌>>=◌, ◌>>◌, reject_if}
use clavenar_sdk.Error.{ClavenarError, transport, invalid_config}

-- A callback's answer is part of the environment.
pub data TokenSource : Type 0 where
  no_token callback : TokenSource
  file : String → TokenSource

pub data ProxyPolicy : Type 0 where
  direct environment : ProxyPolicy
  explicit : String → ProxyPolicy

-- Durations are in nanoseconds.
pub record SecureTransportConfig : Type 0 where
  pub ca_bundle_path : String
  pub client_certificate_path : String
  pub private_key_path : String
  pub token_source : TokenSource
  pub connect_timeout : ℕ
  pub request_timeout : ℕ
  pub proxy : ProxyPolicy

-- What `std::fs::read` and the application's callback answer at one time.
pub record Environment : Type 0 where
  pub read : String → Result String (List ℕ)
  pub call : Result ClavenarError (Option String)

pub data ProxyUse (P : Type 0) : Type 0 where
  no_proxy from_environment : ProxyUse P
  through : P → ProxyUse P

-- What reqwest's builder is given.
pub record Settings (Certificate Identity P : Type 0) : Type 0 where
  pub root : Certificate
  pub identity : Identity
  pub connect_timeout : ℕ
  pub timeout : ℕ
  pub authorization : Option String
  pub proxy : ProxyUse P

-- reqwest, and `str::trim` and `String::from_utf8`.
pub record TlsApi : Type 1 where
  pub Certificate : Type 0
  pub Identity : Type 0
  pub Proxy : Type 0
  pub Client : Type 0
  pub certificate_from_pem : List ℕ → Result String Certificate
  pub identity_from_pem : List ℕ → Result String Identity
  pub is_header_value : String → Bool
  pub proxy_all : String → Result String Proxy
  pub build : Settings Certificate Identity Proxy → Result String Client
  pub trim : String → String
  pub from_utf8 : List ℕ → Result String String

-- `bytes.ends_with(b"\n")`
abbrev ends_line : Bool → List ℕ → Bool
ends_line last [] = last
ends_line last (b ∷ bytes) = ends_line (b == 10) bytes

unfoldable pub read_nonempty : Environment → String → String → Result ClavenarError (List ℕ)
read_nonempty env path label = do
  bytes ←
      map_err (λ e. invalid_config ("cannot read " <> (label <> (" " <> (path <> (": " <> e))))))
        (env.read path)
  reject_if (length bytes == 0) (invalid_config (label <> (" " <> (path <> " is empty"))))
  ok bytes

unfoldable pub invalid_source : String → String → String → ClavenarError
invalid_source label path error =
    invalid_config ("invalid " <> (label <> (" " <> (path <> (": " <> error)))))

module _ (api : TlsApi) where
  unfoldable pub raw_token : Environment → TokenSource → Result ClavenarError (Option String)
  unfolding read_nonempty
  raw_token env no_token = ok none
  raw_token env (file path) = do
    bytes ← read_nonempty env path "token"
    text ← map_err (λ _. invalid_config "token file is not UTF-8") (api.from_utf8 bytes)
    ok (some text)
  raw_token env callback = env.call

  -- `.map(…).transpose()`
  unfoldable pub trimmed : Option String → Result ClavenarError (Option String)
  trimmed none = ok none
  trimmed (some value) = do
    reject_if (api.trim value == "") (invalid_config "token source returned an empty token")
    ok (some (api.trim value))

  unfoldable pub load_token : Environment → TokenSource → Result ClavenarError (Option String)
  unfolding raw_token trimmed
  load_token env source = raw_token env source >>= trimmed

  unfoldable pub authorization_of : Option String → Result ClavenarError (Option String)
  authorization_of none = ok none
  authorization_of (some token) =
      if api.is_header_value ("Bearer " <> token)
      then ok (some ("Bearer " <> token))
      else err (invalid_config "token source produced invalid header bytes")

  unfoldable pub proxy_of : ProxyPolicy → Result ClavenarError (ProxyUse api.Proxy)
  proxy_of direct = ok no_proxy
  proxy_of environment = ok from_environment
  proxy_of (explicit url) = do
    proxy ← map_err (λ e. invalid_config ("invalid explicit proxy URL: " <> e)) (api.proxy_all url)
    ok (through proxy)

  abbrev pub with_newline : List ℕ → List ℕ
  with_newline pem = if ends_line false pem then pem else pem ++ (10 ∷ [])

  unfoldable pub build_client :
      Environment → SecureTransportConfig → Result ClavenarError api.Client
  unfolding load_token authorization_of proxy_of invalid_source
  build_client env config = do
    reject_if (config.connect_timeout == 0 || config.request_timeout == 0)
        (invalid_config "secure transport timeouts must be positive")
    ca_pem ← read_nonempty env config.ca_bundle_path "CA bundle"
    cert_pem ← read_nonempty env config.client_certificate_path "client certificate"
    key_pem ← read_nonempty env config.private_key_path "private key"
    root ←
        map_err (invalid_source "CA bundle" config.ca_bundle_path) (api.certificate_from_pem ca_pem)
    identity ←
        map_err (invalid_source "client identity" config.client_certificate_path)
          (api.identity_from_pem (with_newline cert_pem ++ key_pem))
    token ← load_token env config.token_source
    authorization ← authorization_of token
    proxy ← proxy_of config.proxy
    map_err transport (
        api.build (record {
          root = root;
          identity = identity;
          connect_timeout = config.connect_timeout;
          timeout = config.request_timeout;
          authorization = authorization;
          proxy = proxy;
        }))

  -- The lock is poisoned by a thread that panicked while it held it.
  pub record SecureTransportProfile : Type 0 where
    pub config : SecureTransportConfig
    pub current : api.Client
    pub poisoned : Bool

  unfoldable pub new_profile :
      Environment → SecureTransportConfig → Result ClavenarError SecureTransportProfile
  unfolding build_client
  new_profile env config = do
    client ← build_client env config
    ok (record { config = config; current = client; poisoned = false })

  abbrev publish :
      Result ClavenarError api.Client
      → SecureTransportProfile
      → Result ClavenarError (Unit {0}) × SecureTransportProfile
  publish (err e) profile = (err e, profile)
  publish (ok replacement) profile =
      if profile.poisoned
      then (err (invalid_config "transport profile lock poisoned"), profile)
      else (ok tt, record profile { current = replacement })

  unfoldable pub reload :
      Environment
      → SecureTransportProfile
      → Result ClavenarError (Unit {0}) × SecureTransportProfile
  unfolding build_client
  reload env profile = publish (build_client env profile.config) profile
