-- ===== src/Tests/Credentials.antt =====
-- The rotation of src/secure_transport.rs at concrete inputs.
use clavenar_sdk.Prelude.{
  ℕ, ◌≡◌, refl, String, List, [], ◌∷◌, none, some, false, true, ◌==◌, nat_eq, string_eq,
  if◌then◌else◌,
}
use clavenar_sdk.Effects.{ok, err}
use clavenar_sdk.Transport.{
  SecureTransportConfig, Environment, TlsApi, Settings, SecureTransportProfile, file, direct,
  build_client, new_profile, reload, no_proxy, read_nonempty, load_token, raw_token, trimmed,
  authorization_of, proxy_of,
}
use clavenar_sdk.Transport.Rotation.{
  IsAtomic, IsBuiltBy, IsSnapshot, reload_all, reload-IsAtomic, reload_all-IsBuiltBy,
  build_client-IsSnapshot,
}

abbrev api : TlsApi
api = record {
  Certificate = List ℕ;
  Identity = List ℕ;
  Proxy = String;
  Client = Settings (List ℕ) (List ℕ) String;
  certificate_from_pem = λ pem. ok pem;
  identity_from_pem = λ pem. ok pem;
  is_header_value = λ s. true;
  proxy_all = λ url. ok url;
  build = λ settings. ok settings;
  trim = λ s. s;
  from_utf8 = λ bytes. ok "token";
}

abbrev config : SecureTransportConfig
config = record {
  ca_bundle_path = "ca";
  client_certificate_path = "cert";
  private_key_path = "key";
  token_source = file "token";
  connect_timeout = 5;
  request_timeout = 30;
  proxy = direct;
}

abbrev first : Environment
first = record { read = λ path. ok (65 ∷ []); call = ok none }

-- The rotated certificate arrived, its key did not.
abbrev half : Environment
half = record {
  read = λ path. if path == "key" then err "no such file" else ok (66 ∷ []);
  call = ok none;
}

abbrev snapshot : Settings (List ℕ) (List ℕ) String
snapshot = record {
  root = 65 ∷ [];
  identity = 65 ∷ (10 ∷ (65 ∷ []));
  connect_timeout = 5;
  timeout = 30;
  authorization = some "Bearer token";
  proxy = no_proxy;
}

abbrev profile : SecureTransportProfile api
profile = record { config = config; current = snapshot; poisoned = false }

builds : build_client api first config ≡ ok snapshot
unfolding build_client read_nonempty load_token raw_token trimmed authorization_of proxy_of
builds = refl

starts : new_profile api first config ≡ ok profile
unfolding new_profile build_client read_nonempty load_token raw_token trimmed authorization_of
    proxy_of
starts = refl

build_client-IsSnapshot_example : IsSnapshot api first config snapshot
build_client-IsSnapshot_example = build_client-IsSnapshot api first config snapshot builds

reload-IsAtomic_example :
    IsAtomic api half profile (reload api half profile).1 (reload api half profile).0
reload-IsAtomic_example = reload-IsAtomic api half profile

reload_all-IsBuiltBy_example :
    IsBuiltBy api config
      (reload_all api (half ∷ (first ∷ [])) profile).current
      (first ∷ (half ∷ (first ∷ [])))
reload_all-IsBuiltBy_example =
    reload_all-IsBuiltBy api first config profile (half ∷ (first ∷ [])) starts
