-- ===== src/Effects/Inversion.antt =====
-- What a run that succeeds says of its parts.
use clavenar_sdk.Prelude.{◌≡◌, refl}
use clavenar_sdk.Effects.{Result, ok, err, map_err, Run, pure, lift, attempt, continue, ◌>>=◌}

module _ {ℓ} {S E A B : Type ℓ} where
  continued :
      (r : Result E A) (f : A → Run S E B) (s : S) {b : B} {t : S}
      → continue r f s ≡ (ok b, t)
      → (a : A) × (r ≡ ok a) × (f a s ≡ (ok b, t))
  continued (ok a) f s h = (a, refl, h)
  continued (err e) f s {b} {t} h = cc

  pub >>=-ok :
      (m : Run S E A) (f : A → Run S E B) (s : S) {b : B} {t : S}
      → (m >>= f) s ≡ (ok b, t)
      → (a : A) × ((m s).0 ≡ ok a) × (f a (m s).1 ≡ (ok b, t))
  unfolding ◌>>=◌
  >>=-ok m f s h = continued (m s).0 f (m s).1 h

  pub lift>>=-ok :
      (r : Result E A) (f : A → Run S E B) (s : S) {b : B} {t : S}
      → (lift r >>= f) s ≡ (ok b, t)
      → (a : A) × (r ≡ ok a) × (f a s ≡ (ok b, t))
  unfolding ◌>>=◌
  lift>>=-ok r f s h = continued r f s h

module _ {ℓ} {E F A : Type ℓ} where
  pub map_err-ok : (f : E → F) (r : Result E A) {a : A} → map_err f r ≡ ok a → r ≡ ok a
  map_err-ok f (ok a) h = cc
  map_err-ok f (err e) h = cc

module _ {ℓ} {S E F A B : Type ℓ} where
  pub attempt>>=-ok :
      (m : Run S E A) (f : Result E A → Run S F B) (s : S) {b : B} {t : S}
      → (attempt m >>= f) s ≡ (ok b, t)
      → f (m s).0 (m s).1 ≡ (ok b, t)
  unfolding ◌>>=◌
  attempt>>=-ok m f s h = h

module _ {ℓ} {S E A : Type ℓ} where
  pub pure-ok : (a : A) (s : S) {b : A} {t : S} → pure {E = E} a s ≡ (ok b, t) → (a ≡ b) × (s ≡ t)
  unfolding pure
  pure-ok a s {b} {t} h = (cc, cc)
