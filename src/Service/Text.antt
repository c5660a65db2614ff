-- ===== src/Service/Text.antt =====
-- Texts of URLs: the bytes of a text, and `percent_encode` of src/http.rs as a function of texts.
use Prim.Native.Char.{Char, code}
use Prim.Native.String.{char_at}
use clavenar_sdk.Prelude.{ℕ, ◌+◌, ◌/◌, ◌%◌, String, List, [], ◌∷◌, ◌++◌, ltb, if◌then◌else◌}
use clavenar_sdk.Http.Percent.{is_unreserved}

-- The numbers of the characters.
abbrev pub codes : String → List ℕ
codes String.[] = []
codes (String.◌∷◌ c s) = code c ∷ codes s

-- The UTF-8 bytes of a character.
unfoldable pub char_bytes : ℕ → List ℕ
char_bytes n =
    if ltb n 128
    then n ∷ []
    else if ltb n 2048
    then (192 + n / 64) ∷ ((128 + n % 64) ∷ [])
    else if ltb n 65536
    then (224 + n / 4096) ∷ ((128 + n / 64 % 64) ∷ ((128 + n % 64) ∷ []))
    else (240 + n / 262144 % 8)
      ∷ ((128 + n / 4096 % 64) ∷ ((128 + n / 64 % 64) ∷ ((128 + n % 64) ∷ [])))

-- `str::bytes`
unfoldable pub utf8 : String → List ℕ
unfolding char_bytes
utf8 String.[] = []
utf8 (String.◌∷◌ c s) = char_bytes (code c) ++ utf8 s

unfoldable pub digit_char : ℕ → Char
digit_char d = char_at "0123456789ABCDEF" d

-- `write!(out, "%{other:02X}")`
abbrev pub escape : ℕ → String → String
escape b rest =
    String.◌∷◌ (char_at "%" 0)
      (String.◌∷◌ (digit_char (b / 16)) (String.◌∷◌ (digit_char (b % 16)) rest))

abbrev pub escape_all : List ℕ → String → String
escape_all [] rest = rest
escape_all (b ∷ bytes) rest = escape b (escape_all bytes rest)

unfoldable pub percent_text : String → String
unfolding is_unreserved char_bytes digit_char
percent_text String.[] = String.[]
percent_text (String.◌∷◌ c s) =
    let rest = percent_text s in
    if is_unreserved (code c) then String.◌∷◌ c rest else escape_all (char_bytes (code c)) rest
