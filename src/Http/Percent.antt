-- ===== src/Http/Percent.antt =====
-- `percent_encode` of src/http.rs, over the bytes of the text and the ASCII codes of the result,
-- and a decoder to compare it with.
use clavenar_sdk.Prelude.{
  ℕ, ◌+◌, ◌*◌, ◌-◌, ◌/◌, ◌%◌, ◌<◌, ◌≡◌, refl, ◌∙◌, ap, arith, Bool, true, false, ◌&&◌, ◌||◌, Option,
  none, some, List, [], ◌∷◌, ltb, leb, ◌==◌, nat_eq, if◌then◌else◌, All, ◌⊎◌, inl, inr, Bool-cases,
}

-- 'A'..='Z' | 'a'..='z' | '0'..='9' | '-' | '.' | '_' | '~'
unfoldable pub is_unreserved : ℕ → Bool
is_unreserved b =
    (leb 65 b && leb b 90)
    || ((leb 97 b && leb b 122)
        || ((leb 48 b && leb b 57) || (b == 45 || (b == 46 || (b == 95 || b == 126)))))

-- The digit that `{:X}` prints.
unfoldable pub hex_digit : ℕ → ℕ
hex_digit d = if ltb d 10 then 48 + d else 55 + d

unfoldable pub percent_encode : List ℕ → List ℕ
unfolding is_unreserved hex_digit
percent_encode [] = []
percent_encode (b ∷ bytes) =
    let rest = percent_encode bytes in
    if is_unreserved b then b ∷ rest else 37 ∷ (hex_digit (b / 16) ∷ (hex_digit (b % 16) ∷ rest))

-- The value of a digit of RFC 3986, in either case.
unfoldable pub hex_value : ℕ → Option ℕ
hex_value c =
    if leb 48 c && leb c 57
    then some (c - 48)
    else if leb 65 c && leb c 70
    then some (c - 55)
    else if leb 97 c && leb c 102
    then some (c - 87)
    else none

-- What has been read of an escape.
pub data Escape : Type 0 where
  outside percent : Escape
  high : ℕ → Escape

abbrev pub cons_to : ℕ → Option (List ℕ) → Option (List ℕ)
cons_to b none = none
cons_to b (some bytes) = some (b ∷ bytes)

abbrev pub with_digit : Option ℕ → (ℕ → Option (List ℕ)) → Option (List ℕ)
with_digit none next = none
with_digit (some d) next = next d

-- The decoder of RFC 3986, which rejects a cut escape.
unfoldable pub percent_decode : Escape → List ℕ → Option (List ℕ)
unfolding hex_value
percent_decode outside [] = some []
percent_decode outside (c ∷ cs) =
    let escaped = percent_decode percent cs in
    let plain = percent_decode outside cs in if c == 37 then escaped else cons_to c plain
percent_decode percent [] = none
percent_decode percent (c ∷ cs) = with_digit (hex_value c) (λ d. percent_decode (high d) cs)
percent_decode (high h) [] = none
percent_decode (high h) (c ∷ cs) =
    let rest = percent_decode outside cs in
    with_digit (hex_value c) (λ d. cons_to (16 * h + d) rest)

hex_value-hex_digit : (d : ℕ) → d < 16 → hex_value (hex_digit d) ≡ some d
unfolding hex_value hex_digit
hex_value-hex_digit d h = ground arith

not_percent : (b : ℕ) → is_unreserved b ≡ true → (b == 37) ≡ false
unfolding is_unreserved
not_percent b h = ground arith

-- Two digits make the byte again.
escaped :
    (b : ℕ) (cs : List ℕ)
    → b < 256
    → percent_decode percent (hex_digit (b / 16) ∷ (hex_digit (b % 16) ∷ cs))
      ≡ cons_to b (percent_decode outside cs)
unfolding percent_decode
escaped b cs h =
    ap (λ o. with_digit o (λ d. percent_decode (high d) (hex_digit (b % 16) ∷ cs)))
      (hex_value-hex_digit (b / 16) (omega (arith, h)))
    ∙ ap (λ o. with_digit o (λ d. cons_to (16 * (b / 16) + d) (percent_decode outside cs)))
        (hex_value-hex_digit (b % 16) (omega arith))
    ∙ ap (λ n. cons_to n (percent_decode outside cs)) whole
  where
    whole : 16 * (b / 16) + b % 16 ≡ b
    whole = omega arith

-- Decoding takes the encoding back, for every list of bytes: different segments never have the
-- same encoding.
pub percent_decode-percent_encode :
    (bytes : List ℕ)
    → All (λ b. b < 256) bytes
    → percent_decode outside (percent_encode bytes) ≡ some bytes
unfolding percent_encode percent_decode
percent_decode-percent_encode [] h = refl
percent_decode-percent_encode (b ∷ bytes) (small, h) = elim (Bool-cases (is_unreserved b)) [
  | inl plain ↦ rw (plain, not_percent b plain, percent_decode-percent_encode bytes h) refl
  | inr other ↦
      rw (other, escaped b (percent_encode bytes) small, percent_decode-percent_encode bytes h) refl
]

-- The codes of an encoding.
abbrev pub IsSafe : ℕ → Type 0
IsSafe c = (is_unreserved c ≡ true) ⊎ (c ≡ 37)

hex_digit-IsSafe : (d : ℕ) → d < 16 → IsSafe (hex_digit d)
unfolding is_unreserved hex_digit
hex_digit-IsSafe d h = inl (ground arith)

-- An encoding has only unreserved characters of RFC 3986 and percent signs: no separator of a path
-- or a query, no space and no control character survives.
pub percent_encode-IsSafe :
    (bytes : List ℕ) → All (λ b. b < 256) bytes → All IsSafe (percent_encode bytes)
unfolding percent_encode
percent_encode-IsSafe [] h = tt
percent_encode-IsSafe (b ∷ bytes) (small, h) = elim (Bool-cases (is_unreserved b)) [
  | inl plain ↦ rw plain (inl plain, percent_encode-IsSafe bytes h)
  | inr other ↦ rw other (
    inr refl,
    (
      hex_digit-IsSafe (b / 16) (omega (arith, small)),
      (hex_digit-IsSafe (b % 16) (omega arith), percent_encode-IsSafe bytes h),
    ),
  )
]
