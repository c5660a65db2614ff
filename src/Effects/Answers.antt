-- ===== src/Effects/Answers.antt =====
-- Runs that succeed with a given answer as long as the outside world stays as it should.
use clavenar_sdk.Prelude.{◌≡◌, refl, sym, subst, Bool, false}
use clavenar_sdk.Effects.{Result, ok, map_err, Run, pure, lift, attempt, on_err, continue, ◌>>=◌}
use clavenar_sdk.Effects.Plain.{reject_if}
use clavenar_sdk.Client.{Call, Machine, logged, asks}

-- A call of the application answers like this in every world that is as it should be, and leaves
-- such a world behind.
pub record Replies {W : Type 0} (I : W → Type 0) {E A : Type 0} (m : Run W E A) (a : A)
    : Type 0 where
  pub at : (w : W) → I w → ((m w).0 ≡ ok a) × I (m w).1

pub record Answers {W : Type 0} (I : W → Type 0) {E A : Type 0} (m : Run (Machine W) E A) (a : A)
    : Type 0 where
  pub at : (s : Machine W) → I s.world → ((m s).0 ≡ ok a) × I (m s).1.world

module _ {W : Type 0} {I : W → Type 0} {E A : Type 0} where
  pub pure-Answers : (a : A) → Answers I (pure {E = E} a) a
  unfolding pure
  pure-Answers a = record { at = λ s h. (refl, h) }

  pub lift-Answers : (r : Result E A) {a : A} → r ≡ ok a → Answers I (lift r) a
  unfolding lift
  lift-Answers r e = record { at = λ s h. (e, h) }

  pub lift-map_err-Answers :
      {F : Type 0} (f : F → E) (r : Result F A) {a : A}
      → r ≡ ok a
      → Answers I (lift (map_err f r)) a
  lift-map_err-Answers f r e = lift-Answers _ (λ i. map_err f (e i))

  pub logged-Answers :
      (note : Result E A → Call) {m : Run W E A} {a : A}
      → Replies I m a
      → Answers I (logged note m) a
  unfolding logged
  logged-Answers note h = record { at = λ s i. h.at s.world i }

  pub attempt-Answers :
      {F : Type 0} {m : Run (Machine W) E A} {a : A}
      → Answers I m a
      → Answers I (attempt {F = F} m) (ok a)
  unfolding attempt
  attempt-Answers h = record { at = λ s i. let (e, j) = h.at s i in (λ k. ok (e k), j) }

  pub on_err-Answers :
      {F : Type 0} (f : E → F) {m : Run (Machine W) E A} {a : A}
      → Answers I m a
      → Answers I (on_err f m) a
  unfolding on_err
  on_err-Answers f h = record { at = λ s i. let (e, j) = h.at s i in (λ k. map_err f (e k), j) }

  pub asks-Answers : (f : W → A) {a : A} → ((w : W) → I w → f w ≡ a) → Answers I (asks {E = E} f) a
  unfolding asks
  asks-Answers f h = record { at = λ s i. (λ k. ok (h s.world i k), i) }

module _ {W : Type 0} {I : W → Type 0} {E A B : Type 0} where
  continued :
      (r : Result E A) (f : A → Run (Machine W) E B) {a : A} {b : B}
      → r ≡ ok a
      → Answers I (f a) b
      → Answers I (continue r f) b
  continued r f {a} {b} e h = subst (λ x. Answers I (continue x f) b) (sym e) h

  pub >>=-Answers :
      {m : Run (Machine W) E A} (f : A → Run (Machine W) E B) {a : A} {b : B}
      → Answers I m a
      → Answers I (f a) b
      → Answers I (m >>= f) b
  unfolding ◌>>=◌
  >>=-Answers {m} f h k = record {
    at = λ s i. let (e, j) = h.at s i in (continued (m s).0 f e k).at (m s).1 j;
  }

  -- A run that goes on from one good answer.
  pub >>=-reached :
      (m : Run (Machine W) E A) (f : A → Run (Machine W) E B) (s : Machine W) {a : A} {b : B}
      → (m s).0 ≡ ok a
      → I (m s).1.world
      → Answers I (f a) b
      → ((m >>= f) s).0 ≡ ok b
  unfolding ◌>>=◌
  >>=-reached m f s e i k = ((continued (m s).0 f e k).at (m s).1 i).0

-- A test that lets a run go on.
pub passed-Answers :
    {W : Type 0} {I : W → Type 0} {E : Type 0} (test : Bool) (e : E)
    → test ≡ false
    → Answers I (lift (reject_if test e)) tt
passed-Answers test e h = lift-Answers _ (λ i. reject_if (h i) e)
