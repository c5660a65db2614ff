-- ===== src/Pack/Found.antt =====
-- What `verifying_key_from_jwks` of src/pack.rs returns: the key of the first matching element.
use clavenar_sdk.Prelude.{
  ℕ, ◌≡◌, refl, ap, subst, ◌≢◌, ◌↔◌, Bool, true, false, String, ◌<>◌, Option, none, some, List,
  ◌==◌, nat_eq, string_eq, length, if◌then◌else◌, string_beq_iff, nat_beq_iff,
}
use clavenar_sdk.Effects.{Result, ok, err, map_err, ok_or}
use clavenar_sdk.Effects.Plain.{◌>>=◌}
use clavenar_sdk.Error.{invalid_config}
use clavenar_sdk.Json.{Value, Items, nil, cons}
use clavenar_sdk.Pack.Jwks.{
  KeyApi, get, as_array, as_str, and_then, kid, find_kid, is_some_of, key_of,
  verifying_key_from_jwks,
}

-- The element of the array that has the key id and no such element before it.
pub data IsFirst (key_id : String) : Items → Value → Type 0 where
  here : {jwk : Value} {rest : Items} → kid jwk ≡ some key_id → IsFirst key_id (cons jwk rest) jwk
  later :
      {jwk other : Value} {rest : Items}
      → kid other ≢ some key_id
      → IsFirst key_id rest jwk
      → IsFirst key_id (cons other rest) jwk

is_some_of-true :
    (key_id : String) (o : Option String) → is_some_of key_id o ≡ true → o ≡ some key_id
is_some_of-true key_id none h = cc
is_some_of-true key_id (some s) h = ap some ((string_beq_iff s key_id).0 h)

is_some_of-some : (key_id : String) → is_some_of key_id (some key_id) ≡ true
is_some_of-some key_id = (string_beq_iff key_id key_id).1 refl

is_some_of-false :
    (key_id : String) (o : Option String) → is_some_of key_id o ≡ false → o ≢ some key_id
is_some_of-false key_id o h e = cc (is_some_of-some key_id, ap (is_some_of key_id) e, h)

some_injective {ℓ} : {A : Type ℓ} {a b : A} → some a ≡ some b → a ≡ b
some_injective e = cc

map_err-ok {ℓ κ μ} :
    {E : Type ℓ} {F : Type κ} {A : Type μ} (f : E → F) (r : Result E A) {a : A}
    → map_err f r ≡ ok a
    → r ≡ ok a
map_err-ok f (ok a) h = cc
map_err-ok f (err e) h = cc

-- What a success of `option.ok_or_else(…)?; …` and of `result.map_err(…)?; …` says.
ok_or-ok {ℓ κ μ} :
    {E : Type ℓ} {A : Type κ} {B : Type μ} (o : Option A) (e : E) {f : A → Result E B} {b : B}
    → (ok_or o e >>= f) ≡ ok b
    → (a : A) × ((o ≡ some a) × (f a ≡ ok b))
ok_or-ok none e h = cc
ok_or-ok (some a) e h = (a, (refl, h))

mapped-ok {ℓ κ μ ν} :
    {E : Type ℓ} {F : Type κ} {A : Type μ} {B : Type ν} (g : E → F) (r : Result E A)
    {f : A → Result F B} {b : B}
    → (map_err g r >>= f) ≡ ok b
    → (a : A) × ((r ≡ ok a) × (f a ≡ ok b))
mapped-ok g (ok a) h = (a, (refl, h))
mapped-ok g (err e) h = cc

find_kid-IsFirst :
    (key_id : String) (items : Items) {jwk : Value}
    → find_kid key_id items ≡ some jwk
    → IsFirst key_id items jwk
find_kid-IsFirst key_id nil h = cc
find_kid-IsFirst key_id (cons other rest) {jwk} h =
    from_test (is_some_of key_id (kid other)) refl (λ k. find_kid-IsFirst key_id rest k) h
  where
    from_test :
        (b : Bool)
        → is_some_of key_id (kid other) ≡ b
        → (find_kid key_id rest ≡ some jwk → IsFirst key_id rest jwk)
        → (if b then some other else find_kid key_id rest) ≡ some jwk
        → IsFirst key_id (cons other rest) jwk
    from_test true q further k =
        subst (IsFirst key_id (cons other rest)) (some_injective k)
          (here (is_some_of-true key_id (kid other) q))
    from_test false q further k = later (is_some_of-false key_id (kid other) q) (further k)

IsFirst-find_kid :
    (key_id : String) {items : Items} {jwk : Value}
    → IsFirst key_id items jwk
    → find_kid key_id items ≡ some jwk
IsFirst-find_kid key_id (here e) = rw e (rw (is_some_of-some key_id) refl)
IsFirst-find_kid key_id (later {other = other} n r) =
    rw (not_kid (is_some_of key_id (kid other)) refl) (IsFirst-find_kid key_id r)
  where
    not_kid : (b : Bool) → is_some_of key_id (kid other) ≡ b → is_some_of key_id (kid other) ≡ false
    not_kid true q = absurd (n (is_some_of-true key_id (kid other) q))
    not_kid false q = q

module _ {K : Type 0} (api : KeyApi K) where
  -- The key is what the 32 bytes that `x` encodes stand for, in the first element with the key id
  -- of the array `keys` of the document.
  abbrev pub IsKeyOf : Value → String → K → Type 0
  IsKeyOf jwks key_id key =
      (items : Items) × ((and_then (get "keys" jwks) as_array ≡ some items)
        × ((jwk : Value) × (IsFirst key_id items jwk
              × ((x : String) × ((and_then (get "x" jwk) as_str ≡ some x)
                    × ((bytes : List ℕ) × ((api.base64_url_decode x ≡ ok bytes)
                          × ((length bytes ≡ 32) × (api.from_bytes bytes ≡ ok key)))))))))

  key_of-ok :
      (bytes : List ℕ) {key : K}
      → key_of api bytes ≡ ok key
      → (length bytes ≡ 32) × (api.from_bytes bytes ≡ ok key)
  key_of-ok bytes {key} h = from_test (length bytes == 32) refl h
    where
      from_test :
          (b : Bool)
          → (length bytes == 32) ≡ b
          → (if b
              then map_err
                  (λ e. invalid_config ("jwks: invalid ed25519 key: " <> e))
                  (api.from_bytes bytes)
              else err (invalid_config "jwks: x is not 32 bytes"))
            ≡ ok key
          → (length bytes ≡ 32) × (api.from_bytes bytes ≡ ok key)
      from_test true q k =
          ((nat_beq_iff (length bytes) 32).0 q, map_err-ok _ (api.from_bytes bytes) k)
      from_test false q k = cc

  jwks-found :
      (jwks : Value) (key_id : String) (key : K)
      → verifying_key_from_jwks api jwks key_id ≡ ok key
      → IsKeyOf jwks key_id key
  unfolding verifying_key_from_jwks
  jwks-found jwks key_id key h =
      let (items, (e1, k1)) = ok_or-ok (and_then (get "keys" jwks) as_array) _ h in
      let (jwk, (e2, k2)) = ok_or-ok (find_kid key_id items) _ k1 in
      let (x, (e3, k3)) = ok_or-ok (and_then (get "x" jwk) as_str) _ k2 in
      let (bytes, (e4, k4)) = mapped-ok _ (api.base64_url_decode x) k3 in
      (
        items,
        (
          e1,
          (jwk, (find_kid-IsFirst key_id items e2, (x, (e3, (bytes, (e4, key_of-ok bytes k4)))))),
        ),
      )

  found-jwks :
      (jwks : Value) (key_id : String) (key : K)
      → IsKeyOf jwks key_id key
      → verifying_key_from_jwks api jwks key_id ≡ ok key
  unfolding verifying_key_from_jwks
  found-jwks jwks key_id key (items, (e1, (jwk, (f, (x, (e3, (bytes, (e4, (n, e5))))))))) = rw e1 (
      rw (IsFirst-find_kid key_id f)
        (rw e3 (rw e4 (rw ((nat_beq_iff (length bytes) 32).1 n) (rw e5 refl)))))

  -- A key is resolved from a JWKS document exactly when its `keys` are an array, and the key is
  -- what the 32 bytes stand for that `x` encodes in the first element with that key id.
  pub verifying_key_from_jwks_iff :
      (jwks : Value) (key_id : String) (key : K)
      → (verifying_key_from_jwks api jwks key_id ≡ ok key) ↔ IsKeyOf jwks key_id key
  verifying_key_from_jwks_iff jwks key_id key =
      (jwks-found jwks key_id key, found-jwks jwks key_id key)
