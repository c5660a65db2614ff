-- ===== src/Json.antt =====
-- serde_json's `Value` as `src/execution.rs` uses it. An object lists its fields in the order of
-- the `BTreeMap` that holds them.
pub mod Canonical
pub mod Ordering
pub mod Sorted
pub mod Reordered
use clavenar_sdk.Prelude.{ℕ, Bool, true, false, ◌&&◌, ◌||◌, String, Eq, ◌==◌, nat_eq, string_eq}

-- A number as serde_json stores it: an unsigned or a negative integer (-(n + 1)), or a finite
-- float by the shortest text that reads back as the same double.
pub data Number : Type 0 where
  pos_int : ℕ → Number
  neg_int : ℕ → Number
  float : String → Number

mutual
  pub data Value : Type 0 where
    null : Value
    bool : Bool → Value
    number : Number → Value
    string : String → Value
    array : Items → Value
    object : Fields → Value

  pub data Items : Type 0 where
    nil : Items
    cons : Value → Items → Items

  pub data Fields : Type 0 where
    end : Fields
    field : String → Value → Fields → Fields

-- Zero and minus zero are equal doubles with different texts.
is_float_zero : String → Bool
is_float_zero s = s == "0.0" || s == "-0.0"

abbrev pub number_beq : Number → Number → Bool
unfolding is_float_zero
number_beq (pos_int a) (pos_int b) = a == b
number_beq (neg_int a) (neg_int b) = a == b
number_beq (float s) (float t) = s == t || (is_float_zero s && is_float_zero t)
number_beq _ _ = false

abbrev bool_beq : Bool → Bool → Bool
bool_beq true true = true
bool_beq false false = true
bool_beq _ _ = false

unfoldable mutual
  unfolding number_beq is_float_zero

  pub value_beq : Value → Value → Bool
  value_beq null null = true
  value_beq (bool a) (bool b) = bool_beq a b
  value_beq (number a) (number b) = number_beq a b
  value_beq (string a) (string b) = a == b
  value_beq (array a) (array b) = items_beq a b
  value_beq (object a) (object b) = fields_beq a b
  value_beq _ _ = false

  pub items_beq : Items → Items → Bool
  items_beq nil nil = true
  items_beq (cons a as') (cons b bs) = value_beq a b && items_beq as' bs
  items_beq _ _ = false

  pub fields_beq : Fields → Fields → Bool
  fields_beq end end = true
  fields_beq (field k a as') (field j b bs) = k == j && (value_beq a b && fields_beq as' bs)
  fields_beq _ _ = false

instance abbrev pub value_eq : Eq Value
value_eq = record { beq = value_beq }

-- A float, by the shortest text that reads back as it.
abbrev pub Float : Type 0
Float = String
