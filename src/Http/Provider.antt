-- ===== src/Http/Provider.antt =====
-- The process-wide provider of src/http.rs: a `OnceLock` that holds a provider once it is installed.
use clavenar_sdk.Prelude.{ℕ, String, Option, none, some}
use clavenar_sdk.Effects.{Result, ok, err, map_err, Run, lift, ◌>>=◌}
use clavenar_sdk.Error.{ClavenarError, invalid_config, transport}
use clavenar_sdk.Http.BaseUrl.{UrlApi, parse_base_url}

-- In seconds.
abbrev default_connect_timeout : ℕ
default_connect_timeout = 5

abbrev pub default_request_timeout : ℕ
default_request_timeout = 30

module _ {P : Type 0} where
  -- `OnceLock::set`, which refuses a second value.
  unfoldable pub install_process_http_provider : P → Run (Option P) ClavenarError (Unit {0})
  install_process_http_provider provider none = (ok tt, some provider)
  install_process_http_provider provider (some installed) =
      (err (invalid_config "process HTTP provider is already installed"), some installed)

  -- `build` is reqwest's builder, by the two timeouts.
  unfoldable pub default_provider : (ℕ → ℕ → Result String P) → Run (Option P) ClavenarError P
  default_provider build none =
      (map_err transport (build default_connect_timeout default_request_timeout), none)
  default_provider build (some installed) = (ok installed, some installed)

  -- What the constructors of the service clients begin with: the URL's text, and the provider.
  unfoldable pub connect :
      {U : Type 0}
      → UrlApi U
      → (U → String)
      → (ℕ → ℕ → Result String P)
      → String
      → Run (Option P) ClavenarError (String × P)
  unfolding parse_base_url default_provider
  connect api text build base_url = do
    url ← lift (parse_base_url api base_url)
    http ← default_provider build
    lift (ok (text url, http))
