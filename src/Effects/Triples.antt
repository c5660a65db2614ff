-- ===== src/Effects/Triples.antt =====
-- Rules for what holds before and after a run.
use clavenar_sdk.Prelude.{◌≡◌, refl, Bool, true, false, if◌then◌else◌}
use clavenar_sdk.Effects.{
  Result, ok, err, map_err, Run, pure, raise, lift, attempt, on_err, continue, ◌>>=◌,
}

-- `Q` of the value and the state after `Ok`, `R` of the error and the state after `Err`.
abbrev pub Outcome {ℓ} :
    {S E A : Type ℓ} → (A → S → Type ℓ) → (E → S → Type ℓ) → Result E A × S → Type ℓ
Outcome Q R (ok a, s) = Q a s
Outcome Q R (err e, s) = R e s

pub Outcome-both {ℓ} :
    {S E A : Type ℓ} (P : S → Type ℓ) (r : Result E A × S) → P r.1 → Outcome (λ _. P) (λ _. P) r
Outcome-both P (ok a, s) h = h
Outcome-both P (err e, s) h = h

pub record Triple {ℓ} {S E A : Type ℓ} (P : S → Type ℓ) (m : Run S E A) (Q : A → S → Type ℓ)
    (R : E → S → Type ℓ) : Type ℓ where
  pub at : (s : S) → P s → Outcome Q R (m s)

module _ {ℓ} {S E A : Type ℓ} {P : S → Type ℓ} {Q : A → S → Type ℓ} {R : E → S → Type ℓ} where
  pub Triple-pure : (a : A) → ((s : S) → P s → Q a s) → Triple P (pure a) Q R
  unfolding pure
  Triple-pure a h = record { at = h }

  pub Triple-raise : (e : E) → ((s : S) → P s → R e s) → Triple P (raise e) Q R
  unfolding raise
  Triple-raise e h = record { at = h }

  lift_at :
      (r : Result E A)
      → ((a : A) → r ≡ ok a → (s : S) → P s → Q a s)
      → ((e : E) → (s : S) → P s → R e s)
      → (s : S) → P s
      → Outcome Q R (lift r s)
  unfolding lift
  lift_at (ok a) h k = h a refl
  lift_at (err e) h k = k e

  pub Triple-lift :
      (r : Result E A)
      → ((a : A) → r ≡ ok a → (s : S) → P s → Q a s)
      → ((e : E) → (s : S) → P s → R e s)
      → Triple P (lift r) Q R
  Triple-lift r h k = record { at = lift_at r h k }

  pub Triple-if :
      (b : Bool) (m n : Run S E A)
      → (b ≡ true → Triple P m Q R)
      → (b ≡ false → Triple P n Q R)
      → Triple P (if b then m else n) Q R
  Triple-if true m n km kn = km refl
  Triple-if false m n km kn = kn refl

module _ {ℓ} {S E A B : Type ℓ} {Q : B → S → Type ℓ} {R : E → S → Type ℓ} where
  continue_at :
      (M : A → S → Type ℓ) (f : A → Run S E B) (r : Result E A × S)
      → ((a : A) → Triple (M a) (f a) Q R)
      → Outcome M R r
      → Outcome Q R (continue r.0 f r.1)
  continue_at M f (ok a, s) k h = (k a).at s h
  continue_at M f (err e, s) k h = h

module _ {ℓ} {S E A B : Type ℓ} {P : S → Type ℓ} {Q : B → S → Type ℓ} {R : E → S → Type ℓ} where
  pub Triple-bind :
      (M : A → S → Type ℓ) (m : Run S E A) (f : A → Run S E B)
      → Triple P m M R
      → ((a : A) → Triple (M a) (f a) Q R)
      → Triple P (m >>= f) Q R
  unfolding ◌>>=◌
  Triple-bind M m f km kf = record { at = λ s h. continue_at M f (m s) kf (km.at s h) }

  -- A fact that the first step establishes is a hypothesis of the rest.
  pub Triple-bind_fact :
      (F : A → Type ℓ) (m : Run S E A) (f : A → Run S E B)
      → Triple P m (λ a s. F a × P s) R
      → ((a : A) → F a → Triple P (f a) Q R)
      → Triple P (m >>= f) Q R
  Triple-bind_fact F m f km kf =
      Triple-bind (λ a s. F a × P s) m f km λ a. record { at = λ s h. (kf a h.0).at s h.1 }

  pub Triple-bind_lift :
      (r : Result E A) (f : A → Run S E B)
      → ((a : A) → r ≡ ok a → Triple P (f a) Q R)
      → ((e : E) (s : S) → P s → R e s)
      → Triple P (lift r >>= f) Q R
  Triple-bind_lift r f kf h =
      Triple-bind_fact (λ a. r ≡ ok a) (lift r) f (Triple-lift r (λ a e s p. (e, p)) h) kf

module _ {ℓ} {S E A : Type ℓ} where
  attempt_at :
      (Q : Result E A → S → Type ℓ) (r : Result E A × S)
      → Outcome (λ a. Q (ok a)) (λ e. Q (err e)) r
      → Q r.0 r.1
  attempt_at Q (ok a, s) h = h
  attempt_at Q (err e, s) h = h

module _ {ℓ} {S E F A : Type ℓ} {P : S → Type ℓ} where
  -- An error that is caught is a value for the postcondition.
  pub Triple-attempt :
      (Q : Result E A → S → Type ℓ) (R : F → S → Type ℓ) (m : Run S E A)
      → Triple P m (λ a. Q (ok a)) (λ e. Q (err e))
      → Triple P (attempt m) Q R
  unfolding attempt
  Triple-attempt Q R m km = record { at = λ s h. attempt_at Q (m s) (km.at s h) }

module _ {ℓ} {S E A : Type ℓ} where
  weaken_at :
      {Q Q' : A → S → Type ℓ} {R R' : E → S → Type ℓ} (r : Result E A × S)
      → ((a : A) (s : S) → Q a s → Q' a s)
      → ((e : E) (s : S) → R e s → R' e s)
      → Outcome Q R r
      → Outcome Q' R' r
  weaken_at (ok a, s) f g h = f a s h
  weaken_at (err e, s) f g h = g e s h

  pub Triple-weaken :
      {P P' : S → Type ℓ} (Q Q' : A → S → Type ℓ) (R R' : E → S → Type ℓ) (m : Run S E A)
      → ((s : S) → P' s → P s)
      → ((a : A) (s : S) → Q a s → Q' a s)
      → ((e : E) (s : S) → R e s → R' e s)
      → Triple P m Q R
      → Triple P' m Q' R'
  Triple-weaken Q Q' R R' m p f g km = record {
    at = λ s h. weaken_at {Q = Q} {Q' = Q'} {R = R} {R' = R'} (m s) f g (km.at s (p s h));
  }

module _ {ℓ} {S E F A : Type ℓ} where
  on_err_at :
      (Q : A → S → Type ℓ) (R : F → S → Type ℓ) (f : E → F) (r : Result E A × S)
      → Outcome Q (λ e. R (f e)) r
      → Outcome Q R (map_err f r.0, r.1)
  on_err_at Q R f (ok a, s) h = h
  on_err_at Q R f (err e, s) h = h

  pub Triple-on_err :
      {P : S → Type ℓ} {Q : A → S → Type ℓ} {R : F → S → Type ℓ} (f : E → F) (m : Run S E A)
      → Triple P m Q (λ e. R (f e))
      → Triple P (on_err f m) Q R
  unfolding on_err
  Triple-on_err {Q = Q} {R = R} f m km = record { at = λ s h. on_err_at Q R f (m s) (km.at s h) }

-- `m` keeps `P`, whether it returns or fails.
abbrev pub Keeps {ℓ} : {S E A : Type ℓ} → (S → Type ℓ) → Run S E A → Type ℓ
Keeps P m = Triple P m (λ _. P) (λ _. P)

module _ {ℓ} {S E A : Type ℓ} {P : S → Type ℓ} where
  pub Keeps-lift : (r : Result E A) → Keeps P (lift r)
  Keeps-lift r = Triple-lift r (λ a e s h. h) (λ e s h. h)

  pub Keeps-pure : (a : A) → Keeps P (pure {E = E} a)
  Keeps-pure a = Triple-pure a (λ s h. h)

  pub Keeps-raise : (e : E) → Keeps P (raise {A = A} e)
  Keeps-raise e = Triple-raise e (λ s h. h)

module _ {ℓ} {S E A B : Type ℓ} {P : S → Type ℓ} where
  pub Keeps-bind :
      (m : Run S E A) (f : A → Run S E B)
      → Keeps P m
      → ((a : A) → Keeps P (f a))
      → Keeps P (m >>= f)
  Keeps-bind m f km kf = Triple-bind (λ _. P) m f km kf

module _ {ℓ} {S E F A : Type ℓ} {P : S → Type ℓ} where
  pub Keeps-attempt : (m : Run S E A) → Keeps P m → Keeps P (attempt {F = F} m)
  Keeps-attempt m km = Triple-attempt (λ _. P) (λ _. P) m km

  pub Keeps-on_err : (f : E → F) (m : Run S E A) → Keeps P m → Keeps P (on_err f m)
  Keeps-on_err f m km = Triple-on_err f m km

pub ruleset keeps_rules =
    (Keeps-lift, Keeps-pure, Keeps-raise, Keeps-bind, Keeps-attempt, Keeps-on_err)
