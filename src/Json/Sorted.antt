-- ===== src/Json/Sorted.antt =====
-- `sort_unstable` and `dedup` on texts (src/execution.rs, src/agents.rs): what they leave is
-- determined by which texts occur.
use clavenar_sdk.Prelude.{
  ◌≡◌, refl, sym, ◌∙◌, ap, subst, arith, Bool, true, false, ◌||◌, String, List, [], ◌∷◌, ◌==◌,
  string_eq, eq_iff, contains, Bool-cases, inl, inr, ◌⊎◌,
}
use clavenar_sdk.Json.Canonical.{insert_key, sort_keys, str_le}
use clavenar_sdk.Json.Ordering.{str_le_total, str_le_trans, str_le_antisym}

or_swap : (a b c : Bool) → (a || (b || c)) ≡ (b || (a || c))
or_swap a b c = ground arith

pub contains-insert_key :
    (k : String) (ks : List String) (s : String)
    → contains (insert_key k ks) s ≡ ((s == k) || contains ks s)
unfolding insert_key
contains-insert_key k [] s = refl
contains-insert_key k (j ∷ js) s = elim (Bool-cases (str_le k j)) [
  | inl e ↦ rw e refl
  | inr e ↦ rw (e, contains-insert_key k js s) (or_swap (s == j) (s == k) (contains js s))
]

pub contains-sort_keys : (ks : List String) (s : String) → contains (sort_keys ks) s ≡ contains ks s
unfolding sort_keys
contains-sort_keys [] s = refl
contains-sort_keys (k ∷ ks) s =
    contains-insert_key k (sort_keys ks) s ∙ ap (λ b. (s == k) || b) (contains-sort_keys ks s)

abbrev pub IsSorted : List String → Type 0
IsSorted [] = Unit
IsSorted (k ∷ ks) = ((s : String) → contains ks s ≡ true → str_le k s ≡ true) × IsSorted ks

-- Of two equal neighbours at most one is there.
abbrev pub IsAscending : List String → Type 0
IsAscending [] = Unit
IsAscending (k ∷ ks) = ((s : String) → contains ks s ≡ true → str_le s k ≡ false) × IsAscending ks

pub either : (a b : Bool) → (a || b) ≡ true → (a ≡ true) ⊎ (b ≡ true)
either a b h = ground arith

pub str_le_refl : (s : String) → str_le s s ≡ true
str_le_refl s = elim (Bool-cases (str_le s s)) [ inl e ↦ e | inr e ↦ str_le_total s s e ]

insert_key-IsSorted : (k : String) (ks : List String) → IsSorted ks → IsSorted (insert_key k ks)
unfolding insert_key
insert_key-IsSorted k [] h = ((λ s e. ground arith), tt)
insert_key-IsSorted k (j ∷ js) (below, h) = elim (Bool-cases (str_le k j)) [
  | inl e ↦ rw e ((λ s c. first s e (either (s == j) (contains js s) c)), (below, h))
  | inr e ↦ rw e (
    (λ s c. later s e (either (s == k) (contains js s) (sym (contains-insert_key k js s) ∙ c))),
    insert_key-IsSorted k js h,
  )
]
  where
    first :
        (s : String)
        → str_le k j ≡ true
        → ((s == j) ≡ true) ⊎ (contains js s ≡ true)
        → str_le k s ≡ true
    first s e (inl c) = subst (λ x. str_le k x ≡ true) (sym ((eq_iff s j).0 c)) e
    first s e (inr c) = str_le_trans k j s e (below s c)

    later :
        (s : String)
        → str_le k j ≡ false
        → ((s == k) ≡ true) ⊎ (contains js s ≡ true)
        → str_le j s ≡ true
    later s e (inl c) = subst (λ x. str_le j x ≡ true) (sym ((eq_iff s k).0 c)) (str_le_total k j e)
    later s e (inr c) = below s c

pub sort_keys-IsSorted : (ks : List String) → IsSorted (sort_keys ks)
unfolding sort_keys
sort_keys-IsSorted [] = tt
sort_keys-IsSorted (k ∷ ks) = insert_key-IsSorted k (sort_keys ks) (sort_keys-IsSorted ks)

-- The same texts, in any order and any number.
abbrev pub HasSame : List String → List String → Type 0
HasSame a b = (s : String) → contains a s ≡ contains b s

pub own : (s : String) → (s == s) ≡ true
own s = (eq_iff s s).1 refl

not_in_tail : (k : String) (ks : List String) → IsAscending (k ∷ ks) → contains ks k ≡ false
not_in_tail k ks (below, h) = elim (Bool-cases (contains ks k)) [
  | inl e ↦ let strict = below k e in let reflexive = str_le_refl k in cc
  | inr e ↦ e
]

module _ (s : String) (ss : List String) (t : String) (ts : List String) (ha : IsAscending (s ∷ ss))
    (hb : IsAscending (t ∷ ts)) (same : HasSame (s ∷ ss) (t ∷ ts)) where
  head_in_other : contains (t ∷ ts) s ≡ true
  head_in_other = sym (same s) ∙ rw (own s) refl

  other_in_list : contains (s ∷ ss) t ≡ true
  other_in_list = same t ∙ rw (own t) refl

  heads : s ≡ t
  heads = from_cases (either _ _ head_in_other) (either _ _ other_in_list)
    where
      from_cases :
          ((s == t) ≡ true) ⊎ (contains ts s ≡ true)
          → ((t == s) ≡ true) ⊎ (contains ss t ≡ true)
          → s ≡ t
      from_cases (inl e) _ = (eq_iff s t).0 e
      from_cases (inr c) (inl e) = sym ((eq_iff t s).0 e)
      from_cases (inr c) (inr d) =
          str_le_antisym s t (str_le_total t s (ha.0 t d)) (str_le_total s t (hb.0 s c))

  tails : HasSame ss ts
  tails x = elim (Bool-cases (x == s)) [
    | inl e ↦ from_head ((eq_iff x s).0 e)
    | inr e ↦ ground (arith, same x, ap (λ k. x == k) heads)
  ]
    where
      from_head : x ≡ s → contains ss x ≡ contains ts x
      from_head e =
          ap (λ k. contains ss k) e
          ∙ not_in_tail s ss ha
          ∙ sym (ap (λ k. contains ts k) (e ∙ heads) ∙ not_in_tail t ts hb)

-- Two ascending lists with the same texts are equal.
pub ascending_unique : (a b : List String) → IsAscending a → IsAscending b → HasSame a b → a ≡ b
ascending_unique [] [] ha hb same = refl
ascending_unique [] (t ∷ ts) ha hb same = let e = same t in let o = own t in ground arith
ascending_unique (s ∷ ss) [] ha hb same = let e = same s in let o = own s in ground arith
ascending_unique (s ∷ ss) (t ∷ ts) ha hb same =
    cc (heads s ss t ts ha hb same, ascending_unique ss ts ha.1 hb.1 (tails s ss t ts ha hb same))
