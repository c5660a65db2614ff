-- ===== src/Ledger/Split.antt =====
-- Texts that are split at a separator, as a server reads a query.
use clavenar_sdk.Prelude.{
  ℕ, ◌≡◌, refl, Bool, true, false, List, [], ◌∷◌, ◌++◌, Option, none, some, ◌==◌, nat_eq,
  nat_beq_iff, if◌then◌else◌, All, Bool-cases, inl, inr,
}

abbrev cons_head : ℕ → List (List ℕ) → List (List ℕ)
cons_head c [] = (c ∷ []) ∷ []
cons_head c (xs ∷ xss) = (c ∷ xs) ∷ xss

-- `split(sep)`
pub split_on : ℕ → List ℕ → List (List ℕ)
split_on sep [] = [] ∷ []
split_on sep (c ∷ cs) =
    let rest = split_on sep cs in if c == sep then [] ∷ rest else cons_head c rest

-- What stands before and after the first separator.
abbrev cons_first : ℕ → Option (List ℕ × List ℕ) → Option (List ℕ × List ℕ)
cons_first c none = none
cons_first c (some (xs, ys)) = some (c ∷ xs, ys)

-- `split_once(sep)`
pub split_once : ℕ → List ℕ → Option (List ℕ × List ℕ)
split_once sep [] = none
split_once sep (c ∷ cs) =
    let rest = split_once sep cs in if c == sep then some ([], cs) else cons_first c rest

abbrev pub Lacks : ℕ → List ℕ → Type 0
Lacks sep = All (λ c. (c == sep) ≡ false)

cons_head-append :
    (c : ℕ) (xs : List ℕ) (xss yss : List (List ℕ))
    → cons_head c ((xs ∷ xss) ++ yss) ≡ cons_head c (xs ∷ xss) ++ yss
cons_head-append c xs xss yss = refl

split_on-cons :
    (sep : ℕ) (cs : List ℕ) → (xs : List ℕ) × (xss : List (List ℕ)) × (split_on sep cs ≡ xs ∷ xss)
unfolding split_on
split_on-cons sep [] = ([], [], refl)
split_on-cons sep (c ∷ cs) = from_rest (split_on-cons sep cs)
  where
    from_rest :
        (xs : List ℕ) × (xss : List (List ℕ)) × (split_on sep cs ≡ xs ∷ xss)
        → (xs : List ℕ) × (xss : List (List ℕ)) × (split_on sep (c ∷ cs) ≡ xs ∷ xss)
    from_rest (xs, xss, e) = elim (Bool-cases (c == sep)) [
      | inl q ↦ ([], split_on sep cs, rw q refl)
      | inr q ↦ (c ∷ xs, xss, rw q (rw e refl))
    ]

pub split_on-Lacks : (sep : ℕ) (cs : List ℕ) → Lacks sep cs → split_on sep cs ≡ cs ∷ []
unfolding split_on
split_on-Lacks sep [] h = refl
split_on-Lacks sep (c ∷ cs) h = rw h.0 (rw (split_on-Lacks sep cs h.1) refl)

-- A separator ends a piece, whatever stands before it.
pub split_on-append :
    (sep : ℕ) (xs ys : List ℕ) → split_on sep (xs ++ sep ∷ ys) ≡ split_on sep xs ++ split_on sep ys
unfolding split_on
split_on-append sep [] ys = rw ((nat_beq_iff sep sep).1 refl) refl
split_on-append sep (x ∷ xs) ys = from_rest (split_on-cons sep xs) (split_on-append sep xs ys)
  where
    from_rest :
        (zs : List ℕ) × (zss : List (List ℕ)) × (split_on sep xs ≡ zs ∷ zss)
        → split_on sep (xs ++ sep ∷ ys) ≡ split_on sep xs ++ split_on sep ys
        → split_on sep (x ∷ (xs ++ sep ∷ ys)) ≡ split_on sep (x ∷ xs) ++ split_on sep ys
    from_rest (zs, zss, e) ih = elim (Bool-cases (x == sep)) [
      | inl q ↦ rw q (rw ih refl)
      | inr q ↦ rw q (rw ih (rw e refl))
    ]

pub split_once-append :
    (sep : ℕ) (xs ys : List ℕ) → Lacks sep xs → split_once sep (xs ++ sep ∷ ys) ≡ some (xs, ys)
unfolding split_once
split_once-append sep [] ys h = rw ((nat_beq_iff sep sep).1 refl) refl
split_once-append sep (x ∷ xs) ys h = rw h.0 (rw (split_once-append sep xs ys h.1) refl)

pub Lacks-append : (sep : ℕ) (xs ys : List ℕ) → Lacks sep xs → Lacks sep ys → Lacks sep (xs ++ ys)
Lacks-append sep [] ys h k = k
Lacks-append sep (x ∷ xs) ys h k = (h.0, Lacks-append sep xs ys h.1 k)

abbrev pub lacks : ℕ → List ℕ → Bool
lacks sep [] = true
lacks sep (c ∷ cs) = let rest = lacks sep cs in if c == sep then false else rest

pub lacks-Lacks : (sep : ℕ) (cs : List ℕ) → lacks sep cs ≡ true → Lacks sep cs
lacks-Lacks sep [] h = tt
lacks-Lacks sep (c ∷ cs) h = from_test (c == sep) refl (λ k. lacks-Lacks sep cs k) h
  where
    from_test :
        (b : Bool)
        → (c == sep) ≡ b
        → (lacks sep cs ≡ true → Lacks sep cs)
        → (if b then false else lacks sep cs) ≡ true
        → Lacks sep (c ∷ cs)
    from_test true q further k = cc
    from_test false q further k = (q, further k)
