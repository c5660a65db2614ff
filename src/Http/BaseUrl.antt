-- ===== src/Http/BaseUrl.antt =====
-- `parse_base_url` of src/http.rs.
use Prim.Native.Char.{code}
use clavenar_sdk.Service.Codes.{codes-append}
use clavenar_sdk.Service.Text.{codes}
use clavenar_sdk.Prelude.{
  ℕ, List, [], ◌∷◌, ◌++◌, nat_beq_iff, ◌↔◌, ◌≡◌, refl, sym, ap, subst, ◌∙◌, Bool, true, false,
  String, ◌<>◌, ◌==◌, nat_eq, if◌then◌else◌, Bool-cases, inl, inr,
}
use clavenar_sdk.Effects.{Result, ok, err, map_err}
use clavenar_sdk.Effects.Plain.{◌>>=◌}
use clavenar_sdk.Error.{ClavenarError, invalid_config}

-- `url::Url`, as far as the function uses it.
pub record UrlApi (U : Type 0) : Type 0 where
  pub parse : String → Result String U
  pub path : U → String
  pub set_path : U → String → U

-- `ends_with('/')`, after a text that did or did not end so.
abbrev pub ends_slash : Bool → String → Bool
ends_slash last String.[] = last
ends_slash last (String.◌∷◌ c s) = ends_slash (code c == 47) s

module _ {U : Type 0} (api : UrlApi U) where
  abbrev with_slash : U → U
  with_slash url =
      if ends_slash false (api.path url) then url else api.set_path url (api.path url <> "/")

  unfoldable pub parse_base_url : String → Result ClavenarError U
  parse_base_url s =
      map_err (λ e. invalid_config ("base_url: " <> e)) (api.parse s) >>= λ url. ok (with_slash url)

-- The text's last character is a slash.
abbrev pub EndsInSlash : String → Type 0
EndsInSlash s = (before : List ℕ) × (codes s ≡ before ++ 47 ∷ [])

ends_slash-EndsInSlash :
    (c : ℕ) (s : String)
    → ends_slash (c == 47) s ≡ true
    → (before : List ℕ) × (c ∷ codes s ≡ before ++ 47 ∷ [])
ends_slash-EndsInSlash c String.[] h = ([], ap (λ x. x ∷ []) ((nat_beq_iff c 47).0 h))
ends_slash-EndsInSlash c (String.◌∷◌ d s) h =
    let (before, e) = ends_slash-EndsInSlash (code d) s h in (c ∷ before, ap (λ xs. c ∷ xs) e)

EndsInSlash-ends_slash :
    (before : List ℕ) (last : Bool) (s : String)
    → codes s ≡ before ++ 47 ∷ []
    → ends_slash last s ≡ true
EndsInSlash-ends_slash [] last String.[] h = cc
EndsInSlash-ends_slash (x ∷ before) last String.[] h = cc
EndsInSlash-ends_slash [] last (String.◌∷◌ c String.[]) h = (nat_beq_iff (code c) 47).1 cc
EndsInSlash-ends_slash [] last (String.◌∷◌ c (String.◌∷◌ d s)) h = cc
EndsInSlash-ends_slash (x ∷ before) last (String.◌∷◌ c s) h =
    EndsInSlash-ends_slash before (code c == 47) s cc

EndsInSlash-append : (s : String) → EndsInSlash (s <> "/")
EndsInSlash-append s = (codes s, codes-append s "/")

ends_slash_iff : (s : String) → (ends_slash false s ≡ true) ↔ EndsInSlash s
ends_slash_iff s = (into s, λ (before, e). EndsInSlash-ends_slash before false s e)
  where
    into : (s : String) → ends_slash false s ≡ true → EndsInSlash s
    into String.[] h = cc
    into (String.◌∷◌ c s) h = ends_slash-EndsInSlash (code c) s h

not_slashed : (s : String) → ends_slash false s ≡ false → EndsInSlash s → ⊥
not_slashed s e h = different (sym e ∙ (ends_slash_iff s).1 h)
  where
    different : false ≡ true → ⊥
    different h = cc

-- The base URL for a parsed URL: the URL itself where its path ends with a slash, and otherwise the
-- URL with its path set to the path and a slash, which ends with one.
pub record IsBase {U : Type 0} (api : UrlApi U) (parsed url : U) : Type 0 where
  pub kept : EndsInSlash (api.path parsed) → url ≡ parsed
  pub slashed :
      (EndsInSlash (api.path parsed) → ⊥)
      → (url ≡ api.set_path parsed (api.path parsed <> "/")) × EndsInSlash (api.path parsed <> "/")

ok_injective : {E U : Type 0} {u v : U} → ◌≡◌ {A = Result E U} (ok u) (ok v) → u ≡ v
ok_injective e = cc

module _ {U : Type 0} (api : UrlApi U) where
  with_slash-IsBase : (parsed : U) → IsBase api parsed (with_slash api parsed)
  with_slash-IsBase parsed = elim (Bool-cases (ends_slash false (api.path parsed))) [
    | inl e ↦ record {
      kept = λ h. rw e refl;
      slashed = λ h. absurd (h ((ends_slash_iff (api.path parsed)).0 e));
    }
    | inr e ↦ record {
      kept = λ h. absurd (not_slashed (api.path parsed) e h);
      slashed = λ h. (rw e refl, EndsInSlash-append (api.path parsed));
    }
  ]

  IsBase-with_slash : (parsed url : U) → IsBase api parsed url → with_slash api parsed ≡ url
  IsBase-with_slash parsed url base = elim (Bool-cases (ends_slash false (api.path parsed))) [
    | inl e ↦ rw e (sym (base.kept ((ends_slash_iff (api.path parsed)).0 e)))
    | inr e ↦ rw e (sym (base.slashed (not_slashed (api.path parsed) e)).0)
  ]

  -- A base URL is accepted exactly where it parses, and the result is the parsed URL where its path
  -- ends with a slash, and otherwise the parsed URL with its path set to the path and a slash.
  pub parse_base_url_iff :
      (s : String) (url : U)
      → (parse_base_url api s ≡ ok url)
        ↔ ((parsed : U) × (api.parse s ≡ ok parsed) × IsBase api parsed url)
  unfolding parse_base_url
  parse_base_url_iff s url =
      (into (api.parse s), λ (parsed, e, base). rw e (ap ok (IsBase-with_slash parsed url base)))
    where
      into :
          (r : Result String U)
          → (map_err (λ e. invalid_config ("base_url: " <> e)) r >>= λ u. ok (with_slash api u))
            ≡ ok url
          → (parsed : U) × (r ≡ ok parsed) × IsBase api parsed url
      into (err e) k = cc
      into (ok u) k = (u, refl, subst (IsBase api u) (ok_injective k) (with_slash-IsBase u))
