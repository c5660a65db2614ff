-- ===== src/Pack/Verify.antt =====
-- What a valid verdict of `verify_pack` of src/pack.rs says.
use clavenar_sdk.Prelude.{
  ℕ, ◌≡◌, refl, ◌↔◌, Bool, true, false, if◌then◌else◌, String, Option, none, some, List,
}
use clavenar_sdk.Effects.{Result, ok, err}
use clavenar_sdk.Prelude.Trim.{trim}
use clavenar_sdk.Pack.{
  PackManifest, PackSignatureRef, PackApi, valid, forged, unsigned_bytes, check_signature,
  check_bytes, check_hex, check_digest, check_signed, verify_pack,
}

module _ {K S : Type 0} (api : PackApi K S) (key : K) where
  -- The signature `sig` stands in the text `sig_hex` and verifies over the digest of `bytes`.
  abbrev pub Verifies : String → List ℕ → S → Type 0
  Verifies sig_hex bytes sig =
      (raw : List ℕ) × ((api.hex_decode (trim sig_hex) ≡ ok raw)
        × ((api.signature_from_slice raw ≡ ok sig)
            × (api.verify key (api.sha256 bytes) sig ≡ true)))

  -- A manifest with a signature block, and its canonical bytes signed in the sidecar.
  abbrev pub IsSigned : PackManifest → String → Type 0
  IsSigned manifest sig_hex =
      ((reference : PackSignatureRef) × (manifest.signature ≡ some reference))
      × ((bytes : List ℕ) × ((unsigned_bytes api manifest ≡ ok bytes)
            × ((sig : S) × Verifies sig_hex bytes sig)))

  check_signature-valid :
      (digest : List ℕ) (sig : S)
      → check_signature api key digest sig ≡ valid
      → api.verify key digest sig ≡ true
  check_signature-valid digest sig h = from_test (api.verify key digest sig) h
    where
      from_test :
          (b : Bool)
          → (if b then valid else forged "ed25519 verification failed") ≡ valid
          → b ≡ true
      from_test true k = refl
      from_test false k = cc

  check_hex-valid :
      (digest : List ℕ) (r : Result String (List ℕ))
      → check_hex api key digest r ≡ valid
      → (sig : S) × ((raw : List ℕ) × ((r ≡ ok raw)
            × ((api.signature_from_slice raw ≡ ok sig) × (api.verify key digest sig ≡ true))))
  check_hex-valid digest (err e) h = cc
  check_hex-valid digest (ok raw) h = from_slice (api.signature_from_slice raw) refl h
    where
      from_slice :
          (r : Result String S)
          → api.signature_from_slice raw ≡ r
          → check_bytes api key digest r ≡ valid
          → (sig : S) × ((raw' : List ℕ) × ((◌≡◌ {A = Result String (List ℕ)} (ok raw) (ok raw'))
                × ((api.signature_from_slice raw' ≡ ok sig) × (api.verify key digest sig ≡ true))))
      from_slice (err e) q k = cc
      from_slice (ok sig) q k = (sig, (raw, (refl, (q, check_signature-valid digest sig k))))

  check_digest-valid :
      (sig_hex : String) (r : Result String (List ℕ))
      → check_digest api key sig_hex r ≡ valid
      → (bytes : List ℕ) × ((r ≡ ok bytes) × ((sig : S) × Verifies sig_hex bytes sig))
  check_digest-valid sig_hex (err e) h = cc
  check_digest-valid sig_hex (ok bytes) h =
      (bytes, (refl, check_hex-valid (api.sha256 bytes) (api.hex_decode (trim sig_hex)) h))

  check_signed-valid :
      (manifest : PackManifest) (sig_hex : String) (reference : Option PackSignatureRef)
      → check_signed api manifest sig_hex key reference ≡ valid
      → ((r : PackSignatureRef) × (reference ≡ some r))
        × ((bytes : List ℕ) × ((unsigned_bytes api manifest ≡ ok bytes)
              × ((sig : S) × Verifies sig_hex bytes sig)))
  check_signed-valid manifest sig_hex none h = cc
  check_signed-valid manifest sig_hex (some r) h =
      ((r, refl), check_digest-valid sig_hex (unsigned_bytes api manifest) h)

  verify_pack-valid :
      (manifest : PackManifest) (sig_hex : String)
      → verify_pack api manifest sig_hex key ≡ valid
      → IsSigned manifest sig_hex
  unfolding verify_pack
  verify_pack-valid manifest sig_hex h = check_signed-valid manifest sig_hex manifest.signature h

  valid-verify_pack :
      (manifest : PackManifest) (sig_hex : String)
      → IsSigned manifest sig_hex
      → verify_pack api manifest sig_hex key ≡ valid
  unfolding verify_pack
  valid-verify_pack manifest sig_hex ((r, some_r), (bytes, (eb, (sig, (raw, (eh, (es, ev))))))) =
      rw some_r (rw eb (rw eh (rw es (rw ev refl))))

  -- A pack is valid exactly when the manifest has a signature block, its serialization without
  -- that block succeeds, and the trimmed sidecar decodes to a signature that the key verifies over
  -- the digest of those bytes.
  pub verify_pack_iff :
      (manifest : PackManifest) (sig_hex : String)
      → (verify_pack api manifest sig_hex key ≡ valid) ↔ IsSigned manifest sig_hex
  verify_pack_iff manifest sig_hex =
      (verify_pack-valid manifest sig_hex, valid-verify_pack manifest sig_hex)
