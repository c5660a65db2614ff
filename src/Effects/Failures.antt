-- ===== src/Effects/Failures.antt =====
-- Runs that fail and leave the state as it was.
use clavenar_sdk.Prelude.{◌≡◌, refl}
use clavenar_sdk.Effects.{Result, ok, err, Run, lift, continue, ◌>>=◌}

abbrev pub Fails {ℓ} : {S E A : Type ℓ} → Run S E A → S → Type ℓ
Fails {E} m s = (e : E) × (m s ≡ (err e, s))

module _ {ℓ} {S E A B : Type ℓ} where
  pub Fails-bind : (m : Run S E A) (f : A → Run S E B) (s : S) → Fails m s → Fails (m >>= f) s
  unfolding ◌>>=◌
  Fails-bind m f s (e, h) = (e, λ i. continue (h i).0 f (h i).1)

  pub Fails-lift :
      (r : Result E A) (f : A → Run S E B) (s : S)
      → ((a : A) → r ≡ ok a → Fails (f a) s)
      → Fails (lift r >>= f) s
  unfolding ◌>>=◌
  Fails-lift (ok a) f s k = k a refl
  Fails-lift (err e) f s k = (e, refl)
