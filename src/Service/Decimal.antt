-- ===== src/Service/Decimal.antt =====
-- `Display` of unsigned and signed integers, as the paths and queries print them.
use Prim.Native.String.{char_at}
use clavenar_sdk.Prelude.{ℕ, zero, suc, ◌+◌, ◌/◌, ◌%◌, String, ltb, if◌then◌else◌}
use clavenar_sdk.Prelude.Int.{ℤ, pos, negsuc}
use clavenar_sdk.Service.Text.{digit_char}

-- The digits of a number before a text; each round divides by ten, so the number is fuel enough.
unfoldable pub digits : ℕ → ℕ → String → String
unfolding digit_char
digits zero n rest = String.◌∷◌ (digit_char (n % 10)) rest
digits (suc fuel) n rest =
    let more = digits fuel (n / 10) (String.◌∷◌ (digit_char (n % 10)) rest) in
    if ltb n 10 then String.◌∷◌ (digit_char (n % 10)) rest else more

unfoldable pub show_nat : ℕ → String
unfolding digits
show_nat n = digits n n String.[]

unfoldable pub show_int : ℤ → String
unfolding show_nat
show_int (pos n) = show_nat n
show_int (negsuc n) = String.◌∷◌ (char_at "-" 0) (show_nat (n + 1))
