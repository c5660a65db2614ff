-- ===== src/Effects.antt =====
-- What an `async fn` of the crate does: it works on a state that the outside world shares, and
-- returns `Ok` or `Err`. What was done before an error stays done.
pub mod Plain
pub mod Answers
pub mod Triples
pub mod Failures
pub mod Inversion
use clavenar_sdk.Prelude.{Bool, true, false, Option, none, some}

pub data Result {ℓ κ} (E : Type ℓ) (A : Type κ) : Type (ℓ ⊔ κ) where
  ok : A → Result E A
  err : E → Result E A

-- `Option::ok_or_else`.
abbrev pub ok_or {ℓ κ} : {E : Type ℓ} {A : Type κ} → Option A → E → Result E A
ok_or none e = err e
ok_or (some a) e = ok a

abbrev pub map_err {ℓ κ μ} :
    {E : Type ℓ} {F : Type κ} {A : Type μ} → (E → F) → Result E A → Result F A
map_err f (ok a) = ok a
map_err f (err e) = err (f e)

abbrev pub Run {ℓ} : Type ℓ → Type ℓ → Type ℓ → Type ℓ
Run S E A = S → Result E A × S

module _ {ℓ} {S E A : Type ℓ} where
  unfoldable pub pure : A → Run S E A
  pure a s = (ok a, s)

  unfoldable pub raise : E → Run S E A
  raise e s = (err e, s)

  unfoldable pub lift : Result E A → Run S E A
  lift r s = (r, s)

  -- `match … .await`: the error is a value of the code that follows.
  unfoldable pub attempt : {F : Type ℓ} → Run S E A → Run S F (Result E A)
  attempt m s = let (r, s') = m s in (ok r, s')

abbrev pub is_err {ℓ κ} : {E : Type ℓ} {A : Type κ} → Result E A → Bool
is_err (ok a) = false
is_err (err e) = true

-- `….await.map_err(f)`
unfoldable pub on_err {ℓ} : {S E F A : Type ℓ} → (E → F) → Run S E A → Run S F A
on_err f m s = let (r, s') = m s in (map_err f r, s')

module _ {ℓ} {S E A B : Type ℓ} where
  abbrev pub continue : Result E A → (A → Run S E B) → Run S E B
  continue (ok a) f s = f a s
  continue (err e) f s = (err e, s)

  infixl 10 ◌>>=◌ ◌>>◌
  unfoldable pub ◌>>=◌ : Run S E A → (A → Run S E B) → Run S E B
  unfolding pure raise lift attempt
  ◌>>=◌ m f s = let (r, s') = m s in continue r f s'

  abbrev pub ◌>>◌ : Run S E A → Run S E B → Run S E B
  m >> n = m >>= λ _. n
