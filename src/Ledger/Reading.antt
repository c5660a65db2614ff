-- ===== src/Ledger/Reading.antt =====
-- How a server reads the query of an `AuditFilterParams` (src/ledger.rs), and what it should read.
use clavenar_sdk.Prelude.{ℕ, String, Option, none, some, List, [], ◌∷◌, ◌++◌, nat_eq, string_eq}
use clavenar_sdk.Prelude.Int.{ℤ}
use clavenar_sdk.Http.Percent.{percent_decode, outside}
use clavenar_sdk.Ledger.Records.{AuditFilterParams}
use clavenar_sdk.Ledger.Query.{nonblank}
use clavenar_sdk.Ledger.Split.{split_on, split_once}
use clavenar_sdk.Service.Decimal.{show_int}
use clavenar_sdk.Service.Text.{codes, utf8}

-- A parameter as the server sees it: its name, and its values between commas, decoded.
abbrev pub Field : Type 0
Field = List ℕ × List (List ℕ)

abbrev pub cons_both {ℓ} : {A : Type ℓ} → Option A → Option (List A) → Option (List A)
cons_both (some x) (some xs) = some (x ∷ xs)
cons_both _ _ = none

abbrev pub decode_all : List (List ℕ) → Option (List (List ℕ))
decode_all [] = some []
decode_all (xs ∷ xss) = cons_both (percent_decode outside xs) (decode_all xss)

abbrev pub with_values : List ℕ → Option (List (List ℕ)) → Option Field
with_values name none = none
with_values name (some values) = some (name, values)

abbrev pub read_parts : Option (List ℕ × List ℕ) → Option Field
read_parts none = none
read_parts (some (name, value)) = with_values name (decode_all (split_on 44 value))

unfoldable pub read_field : List ℕ → Option Field
read_field piece = read_parts (split_once 61 piece)

abbrev pub read_fields : List (List ℕ) → Option (List Field)
read_fields [] = some []
read_fields (piece ∷ pieces) = cons_both (read_field piece) (read_fields pieces)

-- What the filter asks for.
abbrev pub texts : String → Option String → List Field
texts name none = []
texts name (some s) = (codes name, utf8 s ∷ []) ∷ []

abbrev pub ints : String → Option ℤ → List Field
ints name none = []
ints name (some n) = (codes name, codes (show_int n) ∷ []) ∷ []

abbrev pub all_utf8 : List String → List (List ℕ)
all_utf8 [] = []
all_utf8 (m ∷ ms) = utf8 m ∷ all_utf8 ms

abbrev pub listed : List String → List Field
listed [] = []
listed (m ∷ ms) = (codes "methods", all_utf8 (m ∷ ms)) ∷ []

abbrev pub fields : AuditFilterParams → List Field
fields f =
    ((((((((ints "seq_from" f.seq_from ++ ints "seq_to" f.seq_to) ++ texts "from" f.from)
                ++ texts "to" f.to)
              ++ listed (nonblank f.methods))
            ++ texts "original_method" f.original_method)
          ++ texts "reason" f.reason)
        ++ texts "verdict" f.verdict)
      ++ texts "brain_delta" f.brain_delta)
