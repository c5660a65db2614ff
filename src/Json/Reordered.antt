-- ===== src/Json/Reordered.antt =====
-- `canonical_json_value` of src/execution.rs does not depend on the order of an object's members.
use clavenar_sdk.Prelude.{
  ◌≡◌, refl, sym, ◌∙◌, ap, arith, true, false, String, ◌<>◌, List, [], ◌∷◌, ◌==◌, string_eq, eq_iff,
  Bool-cases, inl, inr, if◌then◌else◌,
}
use clavenar_sdk.Json.{Value, Items, Fields, string, array, object, nil, cons, end, field}
use clavenar_sdk.Json.Canonical.{
  join, insert_key, sort_keys, str_le, keys, index, render, canonical_json_value, canonical_items,
  canonical_fields,
}
use clavenar_sdk.Json.Ordering.{str_le_total, str_le_trans, str_le_antisym}
use clavenar_sdk.Platform.{Platform}

-- Values that differ in the order of members with different keys, at any depth.
mutual
  pub data SameValue : Value → Value → Type 0 where
    same : (v : Value) → SameValue v v
    same_array : (xs ys : Items) → SameItems xs ys → SameValue (array xs) (array ys)
    same_object : (fs gs : Fields) → SameFields fs gs → SameValue (object fs) (object gs)

  pub data SameItems : Items → Items → Type 0 where
    same_nil : SameItems nil nil
    same_cons :
        (v w : Value) (xs ys : Items)
        → SameValue v w
        → SameItems xs ys
        → SameItems (cons v xs) (cons w ys)

  pub data SameFields : Fields → Fields → Type 0 where
    same_end : SameFields end end
    same_field :
        (k : String) (v w : Value) (fs gs : Fields)
        → SameValue v w
        → SameFields fs gs
        → SameFields (field k v fs) (field k w gs)
    swapped :
        (k j : String) (v w : Value) (fs : Fields)
        → (k == j) ≡ false
        → SameFields (field k v (field j w fs)) (field j w (field k v fs))
    after : (fs gs hs : Fields) → SameFields fs gs → SameFields gs hs → SameFields fs hs

module _ (k j : String) (le : str_le k j ≡ true) (strict : str_le j k ≡ false) where
  no_gap : (i : String) → str_le k i ≡ false → str_le j i ≡ true → ⊥
  no_gap i a b = let c = str_le_trans k j i le b in cc

  insert_key-strict :
      (ks : List String) → insert_key k (insert_key j ks) ≡ insert_key j (insert_key k ks)
  unfolding insert_key
  insert_key-strict [] = rw (le, strict) refl
  insert_key-strict (i ∷ is) = elim (Bool-cases (str_le k i)) [
    | inl a ↦ elim (Bool-cases (str_le j i)) [
      | inl b ↦ rw (a, b, le, strict) refl
      | inr b ↦ rw (a, b, a, strict) refl
    ]
    | inr a ↦ elim (Bool-cases (str_le j i)) [
      | inl b ↦ absurd (no_gap i a b)
      | inr b ↦ rw (a, b, a) (ap (λ xs. i ∷ xs) (insert_key-strict is))
    ]
  ]

insert_key_comm :
    (k j : String) (ks : List String)
    → insert_key k (insert_key j ks) ≡ insert_key j (insert_key k ks)
insert_key_comm k j ks = elim (Bool-cases (str_le k j)) [
  | inl a ↦ elim (Bool-cases (str_le j k)) [
    | inl b ↦ equal (str_le_antisym k j a b)
    | inr b ↦ insert_key-strict k j a b ks
  ]
  | inr a ↦ sym (insert_key-strict j k (str_le_total k j a) a ks)
]
  where
    equal : k ≡ j → insert_key k (insert_key j ks) ≡ insert_key j (insert_key k ks)
    equal e = λ i. insert_key (e i) (insert_key (sym e i) ks)

render_same :
    (p : Platform) (t u : List (String × String))
    → ((k : String) → index k t ≡ index k u)
    → (ks : List String) → render p t ks ≡ render p u ks
unfolding render
render_same p t u h [] = refl
render_same p t u h (k ∷ ks) =
    λ i. (p.value_to_string (string k) <> (":" <> h k i)) ∷ render_same p t u h ks i

module _ (p : Platform) where
  index_swapped :
      (k j : String) (a b : String) (t : List (String × String))
      → (k == j) ≡ false
      → (x : String) → index x ((k, a) ∷ ((j, b) ∷ t)) ≡ index x ((j, b) ∷ ((k, a) ∷ t))
  unfolding index
  index_swapped k j a b t apart x = ground (arith, eq_iff x k, eq_iff x j, eq_iff k j)

  mutual
    unfolding canonical_json_value canonical_items canonical_fields keys index sort_keys

    value_same : (v w : Value) → SameValue v w → canonical_json_value p v ≡ canonical_json_value p w
    value_same v w (same _) = refl
    value_same v w (same_array xs ys h) = λ i. "[" <> (join "," (items_same xs ys h i) <> "]")
    value_same v w (same_object fs gs h) =
        let (sorted, found) = fields_same fs gs h in
        ap (λ ks. "{" <> (join "," (render p (canonical_fields p fs) ks) <> "}")) sorted
        ∙ ap (λ texts. "{" <> (join "," texts <> "}"))
            (render_same p _ _ found (sort_keys (keys gs)))

    items_same : (xs ys : Items) → SameItems xs ys → canonical_items p xs ≡ canonical_items p ys
    items_same xs ys same_nil = refl
    items_same xs ys (same_cons v w xs' ys' h k) = λ i. value_same v w h i ∷ items_same xs' ys' k i

    fields_same :
        (fs gs : Fields)
        → SameFields fs gs
        → (sort_keys (keys fs) ≡ sort_keys (keys gs))
          × ((k : String) → index k (canonical_fields p fs) ≡ index k (canonical_fields p gs))
    fields_same fs gs same_end = (refl, λ k. refl)
    fields_same fs gs (same_field k v w fs' gs' h q) =
        let (sorted, found) = fields_same fs' gs' q in
        (ap (insert_key k) sorted, λ x. λ i. if x == k then value_same v w h i else found x i)
    fields_same fs gs (swapped k j v w fs' e) = (
      insert_key_comm k j (sort_keys (keys fs')),
      index_swapped k j _ _ (canonical_fields p fs') e,
    )
    fields_same fs gs (after _ hs _ h k) =
        let (a, b) = fields_same fs hs h in
        let (c, d) = fields_same hs gs k in (a ∙ c, λ x. b x ∙ d x)

  -- Two JSON values that differ, at any depth, only in the order in which their objects list members
  -- with different keys, have the same canonical text.
  pub canonical_json_value-SameValue :
      (v w : Value) → SameValue v w → canonical_json_value p v ≡ canonical_json_value p w
  canonical_json_value-SameValue = value_same
