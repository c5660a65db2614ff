-- ===== src/Ledger/Values.antt =====
-- The values of a query that the ledger's calls (src/ledger.rs) encode, and what they decode to.
use Prim.Native.Char.{code}
use clavenar_sdk.Prelude.{
  ℕ, ◌≡◌, refl, sym, ap, ◌∙◌, Bool, true, false, String, some, List, [], ◌∷◌, ◌++◌, ◌==◌, nat_eq,
  string_eq, if◌then◌else◌, All, arith, inl, inr, ◌⊎◌, ◌≢◌, subst, Bool-cases, string_beq_iff,
}
use clavenar_sdk.Prelude.Int.{ℤ}
use clavenar_sdk.Prelude.Trim.{trim}
use clavenar_sdk.Http.Percent.{
  percent_decode, outside, is_unreserved, IsSafe, percent_decode-percent_encode,
  percent_encode-IsSafe,
}
use clavenar_sdk.Json.Canonical.{join}
use clavenar_sdk.Ledger.Query.{nonblank, encoded}
use clavenar_sdk.Ledger.Split.{split_on, Lacks, split_on-Lacks, split_on-append, Lacks-append}
use clavenar_sdk.Service.Codes.{codes-append, codes-percent_text, utf8_bound, show_int-IsUnreserved}
use clavenar_sdk.Service.Decimal.{show_int}
use clavenar_sdk.Service.Text.{codes, char_bytes, utf8, percent_text}
use clavenar_sdk.Ledger.Reading.{decode_all, all_utf8}

-- Safe characters separate nothing.
safe-Lacks-comma : (c : ℕ) → IsSafe c → (c == 44) ≡ false
unfolding is_unreserved
safe-Lacks-comma c (inl h) = ground arith
safe-Lacks-comma c (inr h) = ground arith

safe-Lacks-and : (c : ℕ) → IsSafe c → (c == 38) ≡ false
unfolding is_unreserved
safe-Lacks-and c (inl h) = ground arith
safe-Lacks-and c (inr h) = ground arith

safe-Lacks :
    (sep : ℕ)
    → ((c : ℕ) → IsSafe c → (c == sep) ≡ false)
    → (cs : List ℕ) → All IsSafe cs
    → Lacks sep cs
safe-Lacks sep apart [] h = tt
safe-Lacks sep apart (c ∷ cs) h = (apart c h.0, safe-Lacks sep apart cs h.1)

plain-IsSafe : (cs : List ℕ) → All (λ c. is_unreserved c ≡ true) cs → All IsSafe cs
plain-IsSafe [] h = tt
plain-IsSafe (c ∷ cs) h = (inl h.0, plain-IsSafe cs h.1)

text-IsSafe : (s : String) → All IsSafe (codes (percent_text s))
text-IsSafe s = rw (codes-percent_text s) (percent_encode-IsSafe (utf8 s) (utf8_bound s))

not_percent : (c : ℕ) → is_unreserved c ≡ true → (c == 37) ≡ false
unfolding is_unreserved
not_percent c h = ground arith

-- Unreserved characters decode to themselves.
percent_decode-plain :
    (cs : List ℕ) → All (λ c. is_unreserved c ≡ true) cs → percent_decode outside cs ≡ some cs
unfolding percent_decode
percent_decode-plain [] h = refl
percent_decode-plain (c ∷ cs) h = rw (not_percent c h.0) (rw (percent_decode-plain cs h.1) refl)

-- A value that was encoded, and decodes to these bytes.
abbrev pub IsValue : List ℕ → List (List ℕ) → Type 0
IsValue value parts = (decode_all (split_on 44 value) ≡ some parts) × Lacks 38 value

text_decodes : (s : String) → percent_decode outside (codes (percent_text s)) ≡ some (utf8 s)
text_decodes s = rw (codes-percent_text s) (percent_decode-percent_encode (utf8 s) (utf8_bound s))

pub text-IsValue : (s : String) → IsValue (codes (percent_text s)) (utf8 s ∷ [])
text-IsValue s = (
  rw (split_on-Lacks 44 _ (safe-Lacks 44 safe-Lacks-comma _ (text-IsSafe s)))
      (rw (text_decodes s) refl),
  safe-Lacks 38 safe-Lacks-and _ (text-IsSafe s),
)

pub int-IsValue : (n : ℤ) → IsValue (codes (show_int n)) (codes (show_int n) ∷ [])
int-IsValue n = (
  rw
      (split_on-Lacks 44 _
        (safe-Lacks 44 safe-Lacks-comma _ (plain-IsSafe _ (show_int-IsUnreserved n))))
      (rw (percent_decode-plain _ (show_int-IsUnreserved n)) refl),
  safe-Lacks 38 safe-Lacks-and _ (plain-IsSafe _ (show_int-IsUnreserved n)),
)

pub methods-IsValue :
    (m : String) (ms : List String)
    → IsValue (codes (join "," (encoded (m ∷ ms)))) (all_utf8 (m ∷ ms))
unfolding join
methods-IsValue m [] = text-IsValue m
methods-IsValue m (m' ∷ ms) = from_rest (methods-IsValue m' ms)
  where
    rest : List ℕ
    rest = codes (join "," (encoded (m' ∷ ms)))

    joined : codes (join "," (encoded (m ∷ (m' ∷ ms)))) ≡ codes (percent_text m) ++ 44 ∷ rest
    joined =
        codes-append (percent_text m) _
        ∙ ap (λ xs. codes (percent_text m) ++ xs) (codes-append "," _)

    from_rest :
        IsValue rest (all_utf8 (m' ∷ ms))
        → IsValue (codes (join "," (encoded (m ∷ (m' ∷ ms))))) (all_utf8 (m ∷ (m' ∷ ms)))
    from_rest (e, l) = (
      rw joined (
          rw (split_on-append 44 (codes (percent_text m)) rest) (
            rw (split_on-Lacks 44 _ (safe-Lacks 44 safe-Lacks-comma _ (text-IsSafe m)))
              (rw (text_decodes m) (rw e refl)))),
      rw joined (Lacks-append 38 (codes (percent_text m)) (44 ∷ rest) (text-IsValue m).1 (refl, l)),
    )

-- A text with no bytes is empty.
char_bytes-ne-nil : (n : ℕ) (ys : List ℕ) → char_bytes n ++ ys ≢ []
unfolding char_bytes
char_bytes-ne-nil n ys h = ground arith

utf8-ne-nil : (m : String) → (trim m == "") ≡ false → utf8 m ≢ []
unfolding utf8 trim
utf8-ne-nil String.[] h e = cc
utf8-ne-nil (String.◌∷◌ c s) h e = char_bytes-ne-nil (code c) (utf8 s) e

head_of : {x y : String} {xs ys : List String} → x ∷ xs ≡ y ∷ ys → x ≡ y
head_of e = cc

pub head-IsNonblank :
    (ms : List String) (m : String) (rest : List String)
    → nonblank ms ≡ m ∷ rest
    → (trim m == "") ≡ false
unfolding nonblank
head-IsNonblank [] m rest h = cc
head-IsNonblank (x ∷ ms) m rest h =
    from_test (trim x == "") refl (λ k. head-IsNonblank ms m rest k) h
  where
    from_test :
        (b : Bool)
        → (trim x == "") ≡ b
        → (nonblank ms ≡ m ∷ rest → (trim m == "") ≡ false)
        → (if b then nonblank ms else x ∷ nonblank ms) ≡ m ∷ rest
        → (trim m == "") ≡ false
    from_test true q further k = further k
    from_test false q further k = subst (λ y. (trim y == "") ≡ false) (head_of k) q

some_head : {xs : List ℕ} {xss : List (List ℕ)} → some (xs ∷ xss) ≡ some ([] ∷ []) → xs ≡ []
some_head e = cc

-- The methods that are left are not joined to an empty text.
pub joined-ne-empty :
    (m : String) (ms : List String)
    → (trim m == "") ≡ false
    → (join "," (encoded (m ∷ ms)) == "") ≡ false
unfolding percent_decode
joined-ne-empty m ms h = from_cases (Bool-cases (join "," (encoded (m ∷ ms)) == ""))
  where
    bytes : join "," (encoded (m ∷ ms)) ≡ "" → utf8 m ≡ []
    bytes e = some_head (
        sym (methods-IsValue m ms).0
        ∙ ap (λ t. decode_all (split_on 44 (codes t))) e
        ∙ ap decode_all (split_on-Lacks 44 [] tt))

    from_cases :
        ((join "," (encoded (m ∷ ms)) == "") ≡ true) ⊎ ((join "," (encoded (m ∷ ms)) == "") ≡ false)
        → (join "," (encoded (m ∷ ms)) == "") ≡ false
    from_cases (inl e) = absurd (utf8-ne-nil m h (bytes ((string_beq_iff _ _).0 e)))
    from_cases (inr n) = n
