-- ===== src/Effects/Plain.antt =====
-- The `?` of a function that only computes a `Result`.
use clavenar_sdk.Prelude.{Bool, true, false, ◌≡◌, refl, if◌then◌else◌}
use clavenar_sdk.Effects.{Result, ok, err, is_err}

infixl 10 ◌>>=◌ ◌>>◌
abbrev pub ◌>>=◌ {ℓ κ μ} :
    {E : Type ℓ} {A : Type κ} {B : Type μ} → Result E A → (A → Result E B) → Result E B
ok a >>= f = f a
err e >>= f = err e

abbrev pub ◌>>◌ {ℓ κ μ} :
    {E : Type ℓ} {A : Type κ} {B : Type μ} → Result E A → Result E B → Result E B
m >> n = m >>= λ _. n

-- `if test { return Err(e) }`
abbrev pub reject_if {ℓ} : {E : Type ℓ} → Bool → E → Result E (Unit {0})
reject_if test e = if test then err e else ok tt

-- What a success of `if test { return Err(e) }; r` says of the parts.
pub guarded-eq-ok {ℓ κ} :
    {E : Type ℓ} {A : Type κ} (test : Bool) (e : E) (r : Result E A) {a : A}
    → (if test then err e else r) ≡ ok a
    → (test ≡ false) × (r ≡ ok a)
guarded-eq-ok true e r h = cc
guarded-eq-ok false e r h = (refl, h)

-- What a success of `if test { return Err(e) }` followed by `r` says of the parts.
pub reject_if-ok {ℓ κ} :
    {E : Type ℓ} {A : Type κ} (test : Bool) (e : E) (r : Result E A) {a : A}
    → (reject_if test e >> r) ≡ ok a
    → (test ≡ false) × (r ≡ ok a)
reject_if-ok true e r h = cc
reject_if-ok false e r h = (refl, h)

-- What a success of `m?; r` says of the parts.
pub >>-ok {ℓ κ} :
    {E : Type ℓ} {A : Type κ} (m : Result E (Unit {0})) (r : Result E A) {a : A}
    → (m >> r) ≡ ok a
    → (m ≡ ok tt) × (r ≡ ok a)
>>-ok (ok tt) r h = (refl, h)
>>-ok (err e) r h = cc

pub reject_if-false {ℓ} :
    {E : Type ℓ} (test : Bool) (e : E) → reject_if test e ≡ ok tt → test ≡ false
reject_if-false true e h = cc
reject_if-false false e h = refl

pub is_err-false {ℓ} : {E : Type ℓ} (r : Result E (Unit {0})) → is_err r ≡ false → r ≡ ok tt
is_err-false (ok tt) h = refl
is_err-false (err e) h = cc

-- What a success of `let a = r?; next(a)` says of the parts.
pub and_then-ok {ℓ κ μ} :
    {E : Type ℓ} {A : Type κ} {B : Type μ} (r : Result E A) (next : A → Result E B) {last : B}
    → (r >>= next) ≡ ok last
    → (got : A) × (r ≡ ok got) × (next got ≡ ok last)
and_then-ok (err why) next {last} given = cc
and_then-ok (ok got) next {last} given = (got, refl, given)
