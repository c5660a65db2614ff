-- ===== src/Prelude/Trim.antt =====
-- `str::trim`
use Prim.Native.Char.{code}
use Prim.Native.Nat.{ℕ}
use Prim.Native.String.{String}
use mathlib.Core.Bool.{Bool, true, ◌&&◌, ◌||◌}
use clavenar_sdk.Prelude.Tests.{leb, ◌==◌, nat_eq, if◌then◌else◌}

-- `char::is_whitespace`: Unicode's White_Space.
abbrev is_whitespace : ℕ → Bool
is_whitespace c =
    (leb 9 c && leb c 13)
    || (c == 32)
    || (c == 133)
    || (c == 160)
    || (c == 5760)
    || (leb 8192 c && leb c 8202)
    || (c == 8232)
    || (c == 8233)
    || (c == 8239)
    || (c == 8287)
    || (c == 12288)

abbrev trim_start : String → String
trim_start String.[] = String.[]
trim_start (String.◌∷◌ c s) =
    let rest = trim_start s in if is_whitespace (code c) then rest else String.◌∷◌ c s

-- A whitespace character goes where nothing is left after it.
abbrev before : Bool → String → String → String
before true String.[] kept = String.[]
before _ _ kept = kept

abbrev trim_end : String → String
trim_end String.[] = String.[]
trim_end (String.◌∷◌ c s) =
    let rest = trim_end s in before (is_whitespace (code c)) rest (String.◌∷◌ c rest)

-- `str::trim`
unfoldable pub trim : String → String
trim s = trim_end (trim_start s)
