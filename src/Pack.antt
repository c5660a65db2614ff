-- ===== src/Pack.antt =====
-- src/pack.rs: manifests of signed policy packs, and the check of a detached signature.
pub mod Verify
pub mod Jwks
pub mod Found
use clavenar_sdk.Prelude.{
  ℕ, Bool, true, false, ◌&&◌, ◌||◌, String, ◌<>◌, Option, none, some, List, ◌==◌, nat_eq, leb,
  if◌then◌else◌,
}
use clavenar_sdk.Prelude.Trim.{trim}
use clavenar_sdk.Effects.{Result, ok, err, map_err}
use clavenar_sdk.Error.{ClavenarError, decode, invalid_config}

pub record PackEntry : Type 0 where
  pub path : String
  pub content_type : String
  pub body_sha256 : String

-- A time is its RFC 3339 text.
pub record PackSignatureRef : Type 0 where
  pub sidecar : String
  pub algorithm : String
  pub digest_alg : String
  pub key_id : String
  pub signed_at : String

pub record PackManifest : Type 0 where
  pub schema_version : String
  pub name : String
  pub version : String
  pub entries : List PackEntry
  pub generated_at : String
  pub signature : Option PackSignatureRef

pub data PackVerifyOutcome : Type 0 where
  valid : PackVerifyOutcome
  unsigned : PackVerifyOutcome
  forged : String → PackVerifyOutcome
  malformed : String → PackVerifyOutcome

-- What the file calls of serde_json, sha2, hex and ed25519_dalek, at a type of keys and one of
-- signatures; errors are their texts.
pub record PackApi (K S : Type 0) : Type 0 where
  pub to_vec_pretty : PackManifest → Result String (List ℕ)
  pub sha256 : List ℕ → List ℕ
  pub hex_encode : List ℕ → String
  pub hex_decode : String → Result String (List ℕ)
  pub signature_from_slice : List ℕ → Result String S
  -- `key.verify(message, signature).is_ok()`
  pub verify : K → List ℕ → S → Bool

unfoldable pub blank : PackManifest → PackManifest
blank manifest = record manifest { signature = none }

module _ {K S : Type 0} (api : PackApi K S) where
  -- The serialization that `canonical_unsigned` returns, or the error that it wraps.
  unfoldable pub unsigned_bytes : PackManifest → Result String (List ℕ)
  unfolding blank
  unsigned_bytes manifest = api.to_vec_pretty (blank manifest)

  unfoldable pub canonical_unsigned : PackManifest → Result ClavenarError (List ℕ)
  unfolding unsigned_bytes
  canonical_unsigned manifest = map_err decode (unsigned_bytes manifest)

  unfoldable pub digest_hex : PackManifest → Result ClavenarError String
  unfolding canonical_unsigned
  digest_hex manifest = elim (canonical_unsigned manifest) [
    | ok bytes ↦ ok (api.hex_encode (api.sha256 bytes))
    | err e ↦ err e
  ]

  abbrev check_signature : K → List ℕ → S → PackVerifyOutcome
  check_signature key digest sig =
      if api.verify key digest sig then valid else forged "ed25519 verification failed"

  abbrev check_bytes : K → List ℕ → Result String S → PackVerifyOutcome
  check_bytes key digest (err e) = malformed ("signature bytes: " <> e)
  check_bytes key digest (ok sig) = check_signature key digest sig

  abbrev check_hex : K → List ℕ → Result String (List ℕ) → PackVerifyOutcome
  check_hex key digest (err e) = malformed ("signature hex: " <> e)
  check_hex key digest (ok raw) = check_bytes key digest (api.signature_from_slice raw)

  -- `Decode` displays as the error in it.
  abbrev check_digest : K → String → Result String (List ℕ) → PackVerifyOutcome
  check_digest key sig_hex (err e) = malformed ("canonical: " <> e)
  check_digest key sig_hex (ok bytes) =
      check_hex key (api.sha256 bytes) (api.hex_decode (trim sig_hex))

  abbrev check_signed : PackManifest → String → K → Option PackSignatureRef → PackVerifyOutcome
  check_signed manifest sig_hex key none = unsigned
  check_signed manifest sig_hex key (some _) = check_digest key sig_hex (unsigned_bytes manifest)

  unfoldable pub verify_pack : PackManifest → String → K → PackVerifyOutcome
  unfolding trim unsigned_bytes
  verify_pack manifest sig_hex key = check_signed manifest sig_hex key manifest.signature

-- The retired signer: a compatibility shell that holds nothing and refuses.
pub record PackSignature : Type 0 where
  pub signature_hex : String
  pub key_id : String
  pub algorithm : String
  pub signed_at : String

unfoldable pub sign : String → Result ClavenarError PackSignature
sign digest_sha256_hex = err (
    invalid_config (
      "policy-pack signing is disabled: identity /sign/blob is ledger-only; configure a "
      <> "dedicated identity.sign.policy-pack capability before enabling this operation"))
