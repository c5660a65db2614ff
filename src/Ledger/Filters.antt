-- ===== src/Ledger/Filters.antt =====
-- `AuditFilterParams::append_query` of src/ledger.rs: a server that splits the query reads the
-- filters back.
use mathlib.Core.List.{append-nil, append_assoc}
use clavenar_sdk.Prelude.{
  ℕ, ◌≡◌, refl, sym, ap, ◌∙◌, true, String, Option, none, some, List, [], ◌∷◌, ◌++◌, nat_eq,
  string_eq, arith,
}
use clavenar_sdk.Prelude.Int.{ℤ}
use clavenar_sdk.Json.Canonical.{join}
use clavenar_sdk.Ledger.Records.{AuditFilterParams}
use clavenar_sdk.Ledger.Query.{
  push, push_text, push_int, nonblank, encoded, push_joined, push_methods, append_query,
}
use clavenar_sdk.Ledger.Split.{
  split_on, split_on-Lacks, split_on-append, split_once-append, Lacks-append, lacks, lacks-Lacks,
}
use clavenar_sdk.Service.Codes.{codes-append}
use clavenar_sdk.Service.Text.{codes}
use clavenar_sdk.Ledger.Reading.{
  Field, cons_both, read_field, read_fields, texts, ints, listed, fields,
}
use clavenar_sdk.Ledger.Values.{
  IsValue, text-IsValue, int-IsValue, methods-IsValue, joined-ne-empty, head-IsNonblank,
}

-- The pieces between ampersands that are new in `path'`, and what is read from them.
abbrev pub Reads : String → String → List Field → Type 0
Reads path path' fs =
    (pieces : List (List ℕ)) × (split_on 38 (codes path') ≡ split_on 38 (codes path) ++ pieces)
    × (read_fields pieces ≡ some fs)

cons_both-append :
    (o : Option Field) (r r' : Option (List Field)) (fs : List Field) (x : Field)
    → cons_both o r ≡ some fs
    → ((ys : List Field) → r ≡ some ys → r' ≡ some (ys ++ x ∷ []))
    → cons_both o r' ≡ some (fs ++ x ∷ [])
cons_both-append none r r' fs x h k = cc
cons_both-append (some y) none r' fs x h k = cc
cons_both-append (some y) (some ys) r' fs x h k = rw (k ys refl) (ground (arith, h))

read_fields-append :
    (pieces : List (List ℕ)) (piece : List ℕ) (fs : List Field) (x : Field)
    → read_fields pieces ≡ some fs
    → read_field piece ≡ some x
    → read_fields (pieces ++ piece ∷ []) ≡ some (fs ++ x ∷ [])
read_fields-append [] piece fs x h k = rw k (ground arith)
read_fields-append (q ∷ pieces) piece fs x h k =
    cons_both-append (read_field q) (read_fields pieces) _ fs x h
      (λ ys e. read_fields-append pieces piece ys x e k)

pushed :
    (name value path : String)
    → codes (push name value path) ≡ codes path ++ 38 ∷ (codes name ++ 61 ∷ codes value)
unfolding push
pushed name value path =
    codes-append path _
    ∙ ap (λ xs. codes path ++ xs)
        (codes-append "&" _
          ∙ ap (λ xs. 38 ∷ xs)
              (codes-append name _ ∙ ap (λ xs. codes name ++ xs) (codes-append "=" value)))

push-Reads :
    (name value path path' : String) (fs : List Field) (parts : List (List ℕ))
    → lacks 38 (codes name) ≡ true
    → lacks 61 (codes name) ≡ true
    → IsValue (codes value) parts
    → Reads path path' fs
    → Reads path (push name value path') (fs ++ (codes name, parts) ∷ [])
unfolding read_field
push-Reads name value path path' fs parts no_and no_eq (e, l) (pieces, q, r) = (
  pieces ++ (codes name ++ 61 ∷ codes value) ∷ [],
  rw (pushed name value path') (
      split_on-append 38 (codes path') _
      ∙ (ap (λ xs. xs ++ split_on 38 (codes name ++ 61 ∷ codes value)) q
          ∙ (rw
              (split_on-Lacks 38 (codes name ++ 61 ∷ codes value) (
                Lacks-append 38 (codes name) (61 ∷ codes value) (lacks-Lacks 38 _ no_and)
                  (refl, l)))
              (append_assoc (split_on 38 (codes path)) pieces
                ((codes name ++ 61 ∷ codes value) ∷ []))))),
  read_fields-append pieces _ fs _ r
      (rw (split_once-append 61 (codes name) (codes value) (lacks-Lacks 61 _ no_eq)) (rw e refl)),
)

none-Reads :
    (path path' : String) (fs : List Field) → Reads path path' fs → Reads path path' (fs ++ [])
none-Reads path path' fs (pieces, q, r) = (pieces, q, rw (append-nil fs) r)

start : (path : String) → Reads path path []
start path = ([], sym (append-nil _), refl)

module _ (name path path' : String) (fs : List Field) (no_and : lacks 38 (codes name) ≡ true)
    (no_eq : lacks 61 (codes name) ≡ true) (h : Reads path path' fs) where
  text-Reads : (o : Option String) → Reads path (push_text name o path') (fs ++ texts name o)
  text-Reads none = none-Reads path path' fs h
  text-Reads (some s) = push-Reads name _ path path' fs _ no_and no_eq (text-IsValue s) h

  int-Reads : (o : Option ℤ) → Reads path (push_int name o path') (fs ++ ints name o)
  int-Reads none = none-Reads path path' fs h
  int-Reads (some n) = push-Reads name _ path path' fs _ no_and no_eq (int-IsValue n) h

module _ (path path' : String) (fs : List Field) (h : Reads path path' fs) where
  methods-Reads :
      (ms : List String) → Reads path (push_methods ms path') (fs ++ listed (nonblank ms))
  unfolding nonblank join
  methods-Reads [] = none-Reads path path' fs h
  methods-Reads (m ∷ ms) = from_left (nonblank (m ∷ ms)) refl
    where
      from_left :
          (left : List String)
          → nonblank (m ∷ ms) ≡ left
          → Reads path (push_joined (join "," (encoded left)) path') (fs ++ listed left)
      from_left [] q = none-Reads path path' fs h
      from_left (x ∷ xs) q =
          rw (joined-ne-empty x xs (head-IsNonblank (m ∷ ms) x xs q))
            (push-Reads "methods" _ path path' fs _ refl refl (methods-IsValue x xs) h)

-- Splitting the query at ampersands, each parameter at its first equals sign and each value at
-- commas, and decoding the parts, gives the path's own pieces and then exactly the filters that are
-- set, in a fixed order: blank methods are left out, and each other method is a part of its own.
pub append_query-reads :
    (f : AuditFilterParams) (path : String) → Reads path (append_query f path) (fields f)
unfolding append_query
append_query-reads f path =
    text-Reads "brain_delta" path _ _ refl refl
      (text-Reads "verdict" path _ _ refl refl
        (text-Reads "reason" path _ _ refl refl
          (text-Reads "original_method" path _ _ refl refl
            (methods-Reads path _ _
              (text-Reads "to" path _ _ refl refl
                (text-Reads "from" path _ _ refl refl
                  (int-Reads "seq_to" path _ _ refl refl
                    (int-Reads "seq_from" path path [] refl refl (start path) f.seq_from) f.seq_to)
                  f.from)
                f.to)
              f.methods)
            f.original_method)
          f.reason)
        f.verdict)
      f.brain_delta
