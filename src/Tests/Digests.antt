-- ===== src/Tests/Digests.antt =====
-- `canonical_json_value` of src/execution.rs at concrete inputs.
use clavenar_sdk.Prelude.{◌≡◌, refl}
use clavenar_sdk.Json.{Value, string, array, object, nil, cons, end, field}
use clavenar_sdk.Json.Canonical.{canonical_json_value}
use clavenar_sdk.Json.Reordered.{
  SameValue, same_object, same_field, same_end, swapped, same_array, same_cons, same_nil,
  canonical_json_value-SameValue,
}
use clavenar_sdk.Tests.World.{platform}

abbrev inner : Value
inner = object (field "b" (string "1") (field "a" (string "2") end))

abbrev inner_sorted : Value
inner_sorted = object (field "a" (string "2") (field "b" (string "1") end))

abbrev outer : Value
outer = array (cons (object (field "z" inner end)) nil)

abbrev outer_sorted : Value
outer_sorted = array (cons (object (field "z" inner_sorted end)) nil)

reordered : SameValue outer outer_sorted
reordered = same_array _ _ (
    same_cons _ _ nil nil
      (same_object _ _ (
        same_field "z" inner inner_sorted end end
          (same_object _ _ (swapped "b" "a" (string "1") (string "2") end refl)) same_end))
      same_nil)

canonical_json_value-SameValue_example :
    canonical_json_value platform outer ≡ canonical_json_value platform outer_sorted
canonical_json_value-SameValue_example =
    canonical_json_value-SameValue platform outer outer_sorted reordered
