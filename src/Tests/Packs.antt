-- ===== src/Tests/Packs.antt =====
-- Policy packs (src/pack.rs) at a small signature scheme: the digest of a text is the text, a
-- signature is one number, and only a manifest that is empty but for its signature serializes.
use clavenar_sdk.Prelude.{
  ℕ, zero, suc, ◌≡◌, refl, ◌↔◌, String, Option, none, some, List, [], ◌∷◌, ◌==◌, nat_eq, string_eq,
  if◌then◌else◌,
}
use clavenar_sdk.Effects.{Result, ok, err}
use clavenar_sdk.Prelude.Trim.{trim}
use clavenar_sdk.Error.{invalid_config}
use clavenar_sdk.Json.{Value, string, array, object, nil, cons, end, field}
use clavenar_sdk.Pack.Jwks.{KeyApi, verifying_key_from_jwks}
use clavenar_sdk.Pack.Found.{IsKeyOf, verifying_key_from_jwks_iff}
use clavenar_sdk.Pack.{
  PackManifest, PackEntry, PackSignatureRef, PackApi, verify_pack, valid, unsigned, forged,
  malformed,
}
use clavenar_sdk.Pack.Verify.{IsSigned, verify_pack_iff}

abbrev pretty :
    String
    → String
    → String
    → List PackEntry
    → String
    → Option PackSignatureRef
    → Result String (List ℕ)
pretty String.[] String.[] String.[] [] String.[] none = ok []
pretty _ _ _ _ _ _ = err "unsupported"

abbrev first_byte : List ℕ → Result String ℕ
first_byte [] = err "too short"
first_byte (b ∷ rest) = ok b

abbrev repeated : ℕ → ℕ → List ℕ
repeated zero b = []
repeated (suc n) b = b ∷ repeated n b

abbrev api : PackApi ℕ ℕ
api = record {
  to_vec_pretty =
      λ m. pretty m.schema_version m.name m.version m.entries m.generated_at m.signature;
  sha256 = λ bytes. bytes;
  hex_encode = λ bytes. "";
  hex_decode = λ text. if text == "07" then ok (7 ∷ []) else err "odd length";
  signature_from_slice = first_byte;
  verify = λ key digest sig. key == sig;
}

abbrev reference : String → PackSignatureRef
reference id = record {
  sidecar = "pack.sig";
  algorithm = "ed25519";
  digest_alg = "sha256";
  key_id = id;
  signed_at = "2026-06-07T00:00:00Z";
}

abbrev pack : Option PackSignatureRef → PackManifest
pack signature = record {
  schema_version = "";
  name = "";
  version = "";
  entries = [];
  generated_at = "";
  signature = signature;
}

trims : trim " 07\n" ≡ "07"
unfolding trim
trims = refl

is_valid : verify_pack api (pack (some (reference "k"))) "07\n" 7 ≡ valid
unfolding verify_pack
is_valid = refl

is_unsigned : verify_pack api (pack none) "07" 7 ≡ unsigned
unfolding verify_pack
is_unsigned = refl

is_forged :
    verify_pack api (pack (some (reference "k"))) "07" 8 ≡ forged "ed25519 verification failed"
unfolding verify_pack
is_forged = refl

is_malformed :
    verify_pack api (pack (some (reference "k"))) "7" 7 ≡ malformed "signature hex: odd length"
unfolding verify_pack
is_malformed = refl

verify_pack_iff_example :
    (verify_pack api (pack (some (reference "k"))) "07\n" 7 ≡ valid)
    ↔ IsSigned api 7 (pack (some (reference "k"))) "07\n"
verify_pack_iff_example = verify_pack_iff api 7 (pack (some (reference "k"))) "07\n"

-- A key is its first byte.
abbrev key_api : KeyApi ℕ
key_api = record {
  base64_url_decode = λ text. if text == "short" then ok (5 ∷ []) else ok (repeated 32 9);
  from_bytes = first_byte;
  from_public_key_pem = λ pem. err "no PEM";
}

abbrev jwk : String → String → Value
jwk id x = object (field "kid" (string id) (field "x" (string x) end))

-- Two keys with one id: the first is taken.
abbrev jwks : Value
jwks = object (
    field "keys"
      (array (cons (jwk "k0" "short") (cons (jwk "k1" "long") (cons (jwk "k1" "short") nil)))) end)

resolves : verifying_key_from_jwks key_api jwks "k1" ≡ ok 9
unfolding verifying_key_from_jwks
resolves = refl

too_short :
    verifying_key_from_jwks key_api jwks "k0" ≡ err (invalid_config "jwks: x is not 32 bytes")
unfolding verifying_key_from_jwks
too_short = refl

no_key : verifying_key_from_jwks key_api jwks "k2" ≡ err (invalid_config "jwks: no key with kid=k2")
unfolding verifying_key_from_jwks
no_key = refl

verifying_key_from_jwks_iff_example :
    (verifying_key_from_jwks key_api jwks "k1" ≡ ok 9) ↔ IsKeyOf key_api jwks "k1" 9
verifying_key_from_jwks_iff_example = verifying_key_from_jwks_iff key_api jwks "k1" 9
