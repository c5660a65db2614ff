-- ===== src/Json/Ordering.antt =====
-- The order of texts that `canonical_json_value` (src/execution.rs) and `same_set` (src/agents.rs)
-- sort by.
use Prim.Native.Nat.{Ordering}
use Prim.Native.String.{compare}
use Prim.Native.String.compare
use text.Mathlib.TextEquality.{path_by_compare}
use clavenar_sdk.Prelude.{◌≡◌, refl, arith, true, false, String}
use clavenar_sdk.Json.Canonical.{str_le}

pub str_le_total : (s t : String) → str_le s t ≡ false → str_le t s ≡ true
str_le_total String.[] String.[] h = refl
str_le_total String.[] (String.◌∷◌ d t) h = ground (arith, compare.nil-cons d t)
str_le_total (String.◌∷◌ c s) String.[] h = ground (arith, compare.nil-cons c s)
str_le_total (String.◌∷◌ c s) (String.◌∷◌ d t) h =
    rw (str_le, compare.cons-cons d c t s)
      (ground (arith, str_le_total s t, compare.cons-cons c d s t))

pub str_le_trans : (r s t : String) → str_le r s ≡ true → str_le s t ≡ true → str_le r t ≡ true
str_le_trans String.[] s String.[] h k = refl
str_le_trans String.[] s (String.◌∷◌ e t) h k = ground (arith, compare.nil-cons e t)
str_le_trans (String.◌∷◌ c r) String.[] t h k = ground (arith, compare.cons-nil c r)
str_le_trans (String.◌∷◌ c r) (String.◌∷◌ d s) String.[] h k = ground (arith, compare.cons-nil d s)
str_le_trans (String.◌∷◌ c r) (String.◌∷◌ d s) (String.◌∷◌ e t) h k =
    rw (str_le, compare.cons-cons c e r t)
      (ground (arith, str_le_trans r s t, compare.cons-cons c d r s, compare.cons-cons d e s t))

both_eq : (s t : String) → str_le s t ≡ true → str_le t s ≡ true → compare s t ≡ Ordering.eq
both_eq String.[] String.[] h k = refl
both_eq String.[] (String.◌∷◌ d t) h k = ground (arith, compare.cons-nil d t)
both_eq (String.◌∷◌ c s) String.[] h k = ground (arith, compare.cons-nil c s)
both_eq (String.◌∷◌ c s) (String.◌∷◌ d t) h k =
    ground (arith, both_eq s t, compare.cons-cons c d s t, compare.cons-cons d c t s)

pub str_le_antisym : (s t : String) → str_le s t ≡ true → str_le t s ≡ true → s ≡ t
str_le_antisym s t h k = path_by_compare s t (both_eq s t h k)
