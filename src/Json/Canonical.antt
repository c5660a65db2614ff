-- ===== src/Json/Canonical.antt =====
-- `canonical_json_value`, `canonical_json` and `sha256` of src/execution.rs.
use Prim.Native.String.{compare}
use Prim.Native.Nat.{Ordering}
use clavenar_sdk.Prelude.{
  Bool, true, false, String, ◌<>◌, List, [], ◌∷◌, ◌==◌, string_eq, if◌then◌else◌,
}
use clavenar_sdk.Json.{
  Value, Items, Fields, null, bool, number, string, array, object, nil, cons, end, field,
}
use clavenar_sdk.Platform.{Platform}

-- `[String]::join`
unfoldable pub join : String → List String → String
join sep [] = ""
join sep (s ∷ []) = s
join sep (s ∷ (t ∷ ts)) = s <> (sep <> join sep (t ∷ ts))

abbrev pub str_le : String → String → Bool
str_le s t = elim (compare s t) [ Ordering.gt ↦ false | _ ↦ true ]

unfoldable pub insert_key : String → List String → List String
insert_key k [] = k ∷ []
insert_key k (j ∷ js) = if str_le k j then k ∷ (j ∷ js) else j ∷ insert_key k js

-- `sort_unstable` on the keys.
unfoldable pub sort_keys : List String → List String
unfolding insert_key
sort_keys [] = []
sort_keys (k ∷ ks) = insert_key k (sort_keys ks)

unfoldable pub keys : Fields → List String
keys end = []
keys (field k v fs) = k ∷ keys fs

-- `object[key]`, on the canonical texts of the values. The key is always one of the object's.
unfoldable pub index : String → List (String × String) → String
index k [] = ""
index k ((j, text) ∷ table) = if k == j then text else index k table

module _ (p : Platform) where
  unfoldable pub render : List (String × String) → List String → List String
  unfolding index
  render table [] = []
  render table (k ∷ ks) = (p.value_to_string (string k) <> (":" <> index k table)) ∷ render table ks

  unfoldable mutual
    unfolding join sort_keys keys render

    pub canonical_json_value : Value → String
    canonical_json_value null = "null"
    canonical_json_value (bool b) = p.value_to_string (bool b)
    canonical_json_value (number n) = p.value_to_string (number n)
    canonical_json_value (string s) = p.value_to_string (string s)
    canonical_json_value (array items) = "[" <> (join "," (canonical_items items) <> "]")
    canonical_json_value (object fields) =
        "{" <> (join "," (render (canonical_fields fields) (sort_keys (keys fields))) <> "}")

    pub canonical_items : Items → List String
    canonical_items nil = []
    canonical_items (cons v items) = canonical_json_value v ∷ canonical_items items

    -- Each value's canonical text, under its key.
    pub canonical_fields : Fields → List (String × String)
    canonical_fields end = []
    canonical_fields (field k v fields) = (k, canonical_json_value v) ∷ canonical_fields fields

  unfoldable pub sha256 : String → String
  sha256 bytes = "sha256:" <> p.sha256_hex bytes
