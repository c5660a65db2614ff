-- ===== src/Http/Bounds.antt =====
-- What a bounded read of a response body (src/http.rs) returns.
use mathlib.Core.List.{append_assoc, append-nil}
use mathlib.Core.Option.{some-injective}
use clavenar_sdk.Prelude.{
  ℕ, ◌+◌, ◌≤◌, ◌≡◌, refl, sym, ap, ◌∙◌, subst, arith, false, String, Option, none, some, List, [],
  ◌∷◌, ◌++◌, length, length-append, ltb, ◌||◌,
}
use clavenar_sdk.Effects.{Result, ok, err}
use clavenar_sdk.Effects.Plain.{guarded-eq-ok}
use clavenar_sdk.Client.{HttpResponse}
use clavenar_sdk.Http.{usize_max, exceeds, read_chunks, read_body_limited}

abbrev pub joined : Option (List ℕ) → List ℕ → Option (List ℕ)
joined none chunk = none
joined (some rest) chunk = some (chunk ++ rest)

-- Everything that the transport delivers, if no chunk is an error: the body with no limit at all.
abbrev pub delivered : List (Result String (List ℕ)) → Option (List ℕ)
delivered [] = some []
delivered (err e ∷ rest) = none
delivered (ok chunk ∷ rest) = joined (delivered rest) chunk

-- The body so far is within the limit, and so is what the remaining chunks make of it.
abbrev Extends : ℕ → List ℕ → List (Result String (List ℕ)) → List ℕ → Type 0
Extends limit read chunks body =
    (rest : List ℕ) × (delivered chunks ≡ some rest) × (body ≡ read ++ rest) × (length body ≤ limit)

extend :
    (limit : ℕ) (read chunk : List ℕ) (chunks : List (Result String (List ℕ))) (body : List ℕ)
    → Extends limit (read ++ chunk) chunks body
    → Extends limit read (ok chunk ∷ chunks) body
extend limit read chunk chunks body (rest, d, e, h) =
    (chunk ++ rest, ap (λ o. joined o chunk) d, e ∙ append_assoc read chunk rest, h)

read_chunks-Extends :
    (limit : ℕ) (read : List ℕ) (chunks : List (Result String (List ℕ))) (body : List ℕ)
    → length read ≤ limit
    → read_chunks limit read chunks ≡ ok body
    → Extends limit read chunks body
unfolding read_chunks
read_chunks-Extends limit read [] body h e =
    ([], refl, same ∙ sym (append-nil read), subst (λ b. length b ≤ limit) (sym same) h)
  where
    same : body ≡ read
    same = cc
read_chunks-Extends limit read (err x ∷ chunks) body h e = ground arith
read_chunks-Extends limit read (ok chunk ∷ chunks) body h e =
    let (admitted, rest) = guarded-eq-ok _ _ _ e in
    extend limit read chunk chunks body (
      read_chunks-Extends limit (read ++ chunk) chunks body
        (fits (length read + length chunk) (length-append read chunk) admitted) rest)
  where
    fits :
        (n : ℕ)
        → length (read ++ chunk) ≡ n
        → (ltb usize_max n || ltb limit n) ≡ false
        → length (read ++ chunk) ≤ limit
    fits n h k = ground arith

joined-some :
    (o : Option (List ℕ)) (chunk : List ℕ) {all : List ℕ}
    → joined o chunk ≡ some all
    → (rest : List ℕ) × (o ≡ some rest) × (chunk ++ rest ≡ all)
joined-some none chunk h = cc
joined-some (some rest) chunk h = (rest, refl, some-injective _ _ h)

Extends-read_chunks :
    (limit : ℕ) (read : List ℕ) (chunks : List (Result String (List ℕ))) (rest : List ℕ)
    → limit ≤ usize_max
    → delivered chunks ≡ some rest
    → length read + length rest ≤ limit
    → read_chunks limit read chunks ≡ ok (read ++ rest)
unfolding read_chunks
Extends-read_chunks limit read [] rest h d k =
    ap ok (sym (append-nil read) ∙ ap (λ t. read ++ t) (some-injective _ _ d))
Extends-read_chunks limit read (err x ∷ chunks) rest h d k = cc
Extends-read_chunks limit read (ok chunk ∷ chunks) rest h d k =
    let (later, d', same) = joined-some (delivered chunks) chunk d in
    let sizes : length chunk + length later ≡ length rest =
      sym (length-append chunk later) ∙ ap length same in
    rw (admitted (length read + length chunk) (omega (arith, sizes, k))) (
      Extends-read_chunks limit (read ++ chunk) chunks later h d'
        (omega (arith, sizes, k, length-append read chunk))
      ∙ ap ok (append_assoc read chunk later ∙ ap (λ t. read ++ t) same))
  where
    admitted : (n : ℕ) → n ≤ limit → (ltb usize_max n || ltb limit n) ≡ false
    admitted n l = ground arith

module _ (response : HttpResponse) (limit : ℕ) where
  -- A bounded read that succeeds returns all that the transport delivered, no chunk of it an
  -- error, and at most `limit` bytes; the declared length, if any, is at most `limit` too.
  pub read_body_limited-ok :
      (body : List ℕ)
      → read_body_limited response limit ≡ ok body
      → (delivered response.chunks ≡ some body)
        × (length body ≤ limit)
        × (exceeds response.content_length limit ≡ false)
  unfolding read_body_limited
  read_body_limited-ok body e =
      let (declared, rest) = guarded-eq-ok _ _ _ e in
      let (all, d, same, h) = read_chunks-Extends limit [] response.chunks body start rest in
      (d ∙ ap some (sym same), h, declared)
    where
      start : 0 ≤ limit
      start = omega arith

  -- A body that the transport delivers without an error, whose length and declared length are at
  -- most `limit`, is returned whole, for every limit that a `usize` can hold.
  pub read_body_limited-total :
      (body : List ℕ)
      → limit ≤ usize_max
      → delivered response.chunks ≡ some body
      → length body ≤ limit
      → exceeds response.content_length limit ≡ false
      → read_body_limited response limit ≡ ok body
  unfolding read_body_limited
  read_body_limited-total body h d k declared =
      rw declared (Extends-read_chunks limit [] response.chunks body h d (omega (arith, k)))
