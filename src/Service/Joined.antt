-- ===== src/Service/Joined.antt =====
-- What a URL that was joined says.
use clavenar_sdk.Prelude.{◌≡◌, String, ◌<>◌, [], arith}
use clavenar_sdk.Effects.{Result, ok, err, map_err}
use clavenar_sdk.Error.{invalid_config}
use clavenar_sdk.Platform.{Platform}
use clavenar_sdk.Service.{Url, joined, join_as}

-- What `join_as` accepts was joined to the base, and has no query yet.
pub join_as-ok :
    (p : Platform) (named base path : String) (url : Url)
    → join_as p named base path ≡ ok url
    → (p.url_join base path ≡ ok url.location) × (url.query ≡ [])
unfolding join_as
join_as-ok p named base path url h = from_join (p.url_join base path) h
  where
    from_join :
        (x : Result String String)
        → map_err (λ e. invalid_config ("join " <> named <> ": " <> e)) (joined p x) ≡ ok url
        → (x ≡ ok url.location) × (url.query ≡ [])
    from_join (ok location) k = ground arith
    from_join (err e) k = cc
