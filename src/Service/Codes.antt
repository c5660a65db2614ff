-- ===== src/Service/Codes.antt =====
-- The codes of URL texts: `percent_encode` of a text is that of its bytes, and integers print as
-- unreserved characters.
use Prim.Native.Char.{code}
use Prim.Native.String.append
use clavenar_sdk.Prelude.{
  ℕ, zero, suc, ◌+◌, ◌*◌, ◌-◌, ◌≤◌, ◌/◌, ◌%◌, ◌<◌, ◌≡◌, refl, sym, ◌∙◌, ap, arith, String, ◌<>◌,
  Bool, true, false, ◌&&◌, List, [], ◌∷◌, ◌++◌, ltb, ◌==◌, nat_eq, nat_beq_iff, All, Bool-cases,
  inl, inr,
}
use clavenar_sdk.Prelude.Int.{ℤ, pos, negsuc}
use clavenar_sdk.Http.Percent.{percent_encode, is_unreserved, hex_digit}
use clavenar_sdk.Service.Text.{codes, char_bytes, utf8, digit_char, escape_all, percent_text}
use clavenar_sdk.Service.Decimal.{digits, show_nat, show_int}

pub codes-append : (s t : String) → codes (s <> t) ≡ codes s ++ codes t
codes-append String.[] t = rw (append.nil t) refl
codes-append (String.◌∷◌ c s) t = rw (append.cons c s t) (ap (λ xs. code c ∷ xs) (codes-append s t))

all_below : ℕ → (ℕ → Bool) → Bool
all_below zero test = true
all_below (suc n) test = test n && all_below n test

all_below_sound :
    (n : ℕ) (test : ℕ → Bool) (x : ℕ) → all_below n test ≡ true → x < n → test x ≡ true
unfolding all_below
all_below_sound zero test x h lt = absurd (omega arith)
all_below_sound (suc n) test x h lt = ground (arith, all_below_sound n test x)

digit_table : all_below 16 (λ d. code (digit_char d) == hex_digit d) ≡ true
unfolding all_below digit_char hex_digit
digit_table = refl

digit_char-code : (d : ℕ) → d < 16 → code (digit_char d) ≡ hex_digit d
digit_char-code d h = (nat_beq_iff _ _).0 (all_below_sound 16 _ d digit_table h)

append-All :
    (xs : List ℕ)
    → All (λ b. b < 256) xs
    → (ys : List ℕ) → All (λ b. b < 256) ys
    → All (λ b. b < 256) (xs ++ ys)
append-All [] h ys k = k
append-All (x ∷ xs) h ys k = (h.0, append-All xs h.1 ys k)

char_bytes_bound : (n : ℕ) → All (λ b. b < 256) (char_bytes n)
unfolding char_bytes
char_bytes_bound n = ground arith

pub utf8_bound : (s : String) → All (λ b. b < 256) (utf8 s)
unfolding utf8
utf8_bound String.[] = tt
utf8_bound (String.◌∷◌ c s) =
    append-All (char_bytes (code c)) (char_bytes_bound (code c)) (utf8 s) (utf8_bound s)

percent_encode-append :
    (xs ys : List ℕ) → percent_encode (xs ++ ys) ≡ percent_encode xs ++ percent_encode ys
unfolding percent_encode
percent_encode-append [] ys = refl
percent_encode-append (x ∷ xs) ys = elim (Bool-cases (is_unreserved x)) [
  | inl e ↦ rw (e, percent_encode-append xs ys) refl
  | inr e ↦ rw (e, percent_encode-append xs ys) refl
]

unreserved-lt : (n : ℕ) → is_unreserved n ≡ true → n < 128
unfolding is_unreserved
unreserved-lt n h = ground arith

char_bytes-plain : (n : ℕ) → is_unreserved n ≡ true → char_bytes n ≡ n ∷ []
unfolding char_bytes
char_bytes-plain n h = ground (arith, unreserved-lt n h)

high-IsEscaped : (b : ℕ) → 127 < b → is_unreserved b ≡ false
unfolding is_unreserved
high-IsEscaped b h = ground arith

char_bytes-IsEscaped :
    (n : ℕ) → is_unreserved n ≡ false → All (λ b. is_unreserved b ≡ false) (char_bytes n)
unfolding char_bytes
char_bytes-IsEscaped n h = ground (
  arith,
  h,
  high-IsEscaped (192 + n / 64),
  high-IsEscaped (128 + n % 64),
  high-IsEscaped (224 + n / 4096),
  high-IsEscaped (128 + n / 64 % 64),
  high-IsEscaped (240 + n / 262144 % 8),
  high-IsEscaped (128 + n / 4096 % 64),
)

codes-escape_all :
    (bytes : List ℕ) (rest : String)
    → All (λ b. b < 256) bytes
    → All (λ b. is_unreserved b ≡ false) bytes
    → codes (escape_all bytes rest) ≡ percent_encode bytes ++ codes rest
unfolding percent_encode
codes-escape_all [] rest small high = refl
codes-escape_all (b ∷ bytes) rest small high = rw high.0 (
    rw
      (
        digit_char-code (b / 16) (omega (arith, small.0)),
        digit_char-code (b % 16) (omega arith),
        codes-escape_all bytes rest small.1 high.1,
      )
      refl)

percent_encode-nil : percent_encode [] ≡ []
unfolding percent_encode
percent_encode-nil = refl

percent_encode-single : (n : ℕ) → is_unreserved n ≡ true → percent_encode (n ∷ []) ≡ n ∷ []
unfolding percent_encode
percent_encode-single n e = rw e refl

-- The function of texts is the function of bytes, on the text's UTF-8.
pub codes-percent_text : (s : String) → codes (percent_text s) ≡ percent_encode (utf8 s)
unfolding percent_text utf8
codes-percent_text String.[] = sym percent_encode-nil
codes-percent_text (String.◌∷◌ c s) = elim (Bool-cases (is_unreserved (code c))) [
  | inl e ↦
      rw
        (
          percent_encode-append (char_bytes (code c)) (utf8 s),
          char_bytes-plain (code c) e,
          percent_encode-single (code c) e,
          e,
        )
        (ap (λ xs. code c ∷ xs) (codes-percent_text s))
  | inr e ↦
      rw (percent_encode-append (char_bytes (code c)) (utf8 s), e)
        (codes-escape_all (char_bytes (code c)) (percent_text s) (char_bytes_bound (code c))
            (char_bytes-IsEscaped (code c) e)
          ∙ ap (λ xs. percent_encode (char_bytes (code c)) ++ xs) (codes-percent_text s))
]

-- Digits and the sign.
digit-IsUnreserved : (d : ℕ) → d < 16 → is_unreserved (code (digit_char d)) ≡ true
unfolding is_unreserved hex_digit
digit-IsUnreserved d h = rw (digit_char-code d h) (ground arith)

digits-IsUnreserved :
    (fuel n : ℕ) (rest : String)
    → All (λ c. is_unreserved c ≡ true) (codes rest)
    → All (λ c. is_unreserved c ≡ true) (codes (digits fuel n rest))
unfolding digits
digits-IsUnreserved zero n rest h = (digit-IsUnreserved (n % 10) (omega arith), h)
digits-IsUnreserved (suc fuel) n rest h = elim (Bool-cases (ltb n 10)) [
  | inl e ↦ rw e (digit-IsUnreserved (n % 10) (omega arith), h)
  | inr e ↦
      rw e (digits-IsUnreserved fuel (n / 10) _ (digit-IsUnreserved (n % 10) (omega arith), h))
]

pub show_int-IsUnreserved : (n : ℤ) → All (λ c. is_unreserved c ≡ true) (codes (show_int n))
unfolding show_int show_nat is_unreserved
show_int-IsUnreserved (pos n) = digits-IsUnreserved n n String.[] tt
show_int-IsUnreserved (negsuc n) = (refl, digits-IsUnreserved (n + 1) (n + 1) String.[] tt)

-- The number that decimal digits stand for, after a number that was read before them.
pub value : ℕ → List ℕ → ℕ
value acc [] = acc
value acc (c ∷ cs) = value (acc * 10 + (c - 48)) cs

digit_value : (d : ℕ) → d < 10 → code (digit_char d) - 48 ≡ d
unfolding hex_digit
digit_value d h = rw (digit_char-code d (omega (arith, h))) (ground arith)

value-digit :
    (acc n : ℕ) (cs : List ℕ)
    → value acc (code (digit_char (n % 10)) ∷ cs) ≡ value (acc * 10 + n % 10) cs
unfolding value
value-digit acc n cs = ap (λ d. value (acc * 10 + d) cs) (digit_value (n % 10) (omega arith))

value-digits :
    (fuel n : ℕ) (rest : String)
    → n ≤ fuel
    → value 0 (codes (digits fuel n rest)) ≡ value n (codes rest)
unfolding digits
value-digits zero n rest h =
    value-digit 0 n (codes rest) ∙ ap (λ k. value k (codes rest)) (omega (arith, h))
value-digits (suc fuel) n rest h = elim (Bool-cases (ltb n 10)) [
  | inl e ↦ rw e (value-digit 0 n (codes rest) ∙ ap (λ k. value k (codes rest)) (ground (arith, e)))
  | inr e ↦ rw e (
      value-digits fuel (n / 10) _ (ground (arith, e, h))
      ∙ (value-digit (n / 10) n (codes rest) ∙ ap (λ k. value k (codes rest)) (omega arith)))
]

-- The printed digits stand for the number, so the fuel is enough.
pub show_nat-value : (n : ℕ) → value 0 (codes (show_nat n)) ≡ n
unfolding show_nat value
show_nat-value n = value-digits n n String.[] (omega arith)
