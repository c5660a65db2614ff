-- ===== src/Service/Authorization.antt =====
-- Requests with a bearer, and calls that decode their answer by the status.
use clavenar_sdk.Prelude.{
  ℕ, ◌≡◌, refl, ap, ◌∙◌, String, ◌<>◌, Option, none, some, List, [], ◌∷◌, ◌++◌, ◌⊎◌, inl, inr, ◌==◌,
  string_eq, nat_eq, nat_beq_iff, Bool-cases, if◌then◌else◌, false, ◌||◌, arith,
}
use clavenar_sdk.Effects.{Result, ok, err, Run, lift, ◌>>=◌}
use clavenar_sdk.Effects.Inversion.{lift>>=-ok}
use clavenar_sdk.Error.{ClavenarError, unauthorized, bad_request, server}
use clavenar_sdk.Http.{decode_response}
use clavenar_sdk.Platform.{Platform}
use clavenar_sdk.Service.{Request, Reply, Provider, with_auth, reply_text, perform}
use clavenar_sdk.Service.Exchange.{
  IsSilent, lift-IsSilent, >>=-IsSilent, Exchanges, send>>=-Exchanges,
}

-- The values of the pairs with that name.
abbrev pub named : String → List (String × String) → List String
named key [] = []
named key ((name, value) ∷ pairs) =
    let rest = named key pairs in if name == key then value ∷ rest else rest

-- The values of the authorization headers.
abbrev pub authorizations : List (String × String) → List String
authorizations = named "authorization"

abbrev pub bearers : Option String → List String
bearers none = []
bearers (some token) = ("Bearer " <> token) ∷ []

pub named-append :
    (key : String) (xs ys : List (String × String))
    → named key (xs ++ ys) ≡ named key xs ++ named key ys
named-append key [] ys = refl
named-append key ((name, value) ∷ xs) ys = ground (arith, named-append key xs ys)

-- `decode_response` takes a value from a 200 or a 201 only.
abbrev pub IsDone : ℕ → Type 0
IsDone status = (status ≡ 200) ⊎ (status ≡ 201)

-- The two statuses, as `decode_response` tests them.
IsDone-cases : (status : ℕ) → IsDone status ⊎ ((status == 200 || status == 201) ≡ false)
IsDone-cases status = elim (Bool-cases (status == 200)) [
  | inl e ↦ inl (inl ((nat_beq_iff status 200).0 e))
  | inr n ↦ elim (Bool-cases (status == 201)) [
    | inl e ↦ inl (inr ((nat_beq_iff status 201).0 e))
    | inr m ↦ inr (rw n m)
  ]
]

refused :
    {A : Type 0} (status : ℕ) (body : String) (a : A)
    → (if status == 401
        then err (unauthorized body)
        else if status == 400
        then err (bad_request body)
        else err (server status body))
      ≡ ok a
    → ⊥
refused status body a h = ground arith

pub decode_response-IsDone :
    {A : Type 0} (parse : String → Result String A) (status : ℕ) (body : String) (a : A)
    → decode_response parse status body ≡ ok a
    → IsDone status
unfolding decode_response
decode_response-IsDone parse status body a h = elim (IsDone-cases status) [
  | inl done ↦ done
  | inr other ↦ absurd (refused status body a (rw other at h))
]

pub with_auth-authorizations :
    (b : Option String) (r : Request)
    → authorizations r.headers ≡ []
    → authorizations (with_auth b r).headers ≡ bearers b
with_auth-authorizations none r h = h
with_auth-authorizations (some token) r h =
    named-append "authorization" r.headers (("authorization", "Bearer " <> token) ∷ [])
    ∙ ap (λ xs. xs ++ ("Bearer " <> token) ∷ []) h

pub with_auth-url : (b : Option String) (r : Request) → (with_auth b r).url ≡ r.url
with_auth-url none r = refl
with_auth-url (some token) r = refl

module _ (p : Platform) {W A : Type 0} (provider : Provider W) (P : Request → Type 0)
    (parse : String → Result String A) where
  read : Reply → Run W ClavenarError A
  read reply =
      lift (reply_text p reply) >>= λ raw. lift (decode_response parse reply.response.status raw)

  read-IsDone :
      (reply : Reply) (w : W) (a : A) → (read reply w).0 ≡ ok a → IsDone reply.response.status
  unfolding read lift
  read-IsDone reply w a h = from_text (lift>>=-ok (reply_text p reply) _ w (pair_ok h))
    where
      pair_ok : (read reply w).0 ≡ ok a → read reply w ≡ (ok a, (read reply w).1)
      pair_ok e = ap (λ x. (x, (read reply w).1)) e

      from_text :
          (raw : String) × (reply_text p reply ≡ ok raw)
            × (lift (decode_response parse reply.response.status raw) w ≡ (ok a, (read reply w).1))
          → IsDone reply.response.status
      from_text (raw, _, e) =
          decode_response-IsDone parse reply.response.status raw a (ap (λ x. x.0) e)

  read-IsSilent : (reply : Reply) → IsSilent (read reply)
  unfolding read
  read-IsSilent reply =
      >>=-IsSilent (lift (reply_text p reply)) _ (lift-IsSilent _) (λ raw. lift-IsSilent _)

  -- One exchange, whose answer is a 200 or a 201 where the call succeeds.
  pub perform-Exchanges :
      (r : Request) → P r → Exchanges provider P IsDone (perform p provider parse r)
  unfolding perform read
  perform-Exchanges r h = send>>=-Exchanges provider P IsDone r (read) h read-IsSilent read-IsDone
