-- ===== src/Ledger/Query.antt =====
-- The query strings of the ledger's calls (src/ledger.rs), which are pushed to the path as text.
use clavenar_sdk.Prelude.{
  String, ◌<>◌, Option, none, some, List, [], ◌∷◌, ◌==◌, string_eq, if◌then◌else◌,
}
use clavenar_sdk.Prelude.Int.{ℤ}
use clavenar_sdk.Prelude.Trim.{trim}
use clavenar_sdk.Json.Canonical.{join}
use clavenar_sdk.Service.Decimal.{show_int}
use clavenar_sdk.Service.Text.{percent_text}
use clavenar_sdk.Ledger.Records.{AuditFilterParams}

-- `path.push_str(&format!("&{name}={value}"))`
unfoldable pub push : String → String → String → String
push name value path = path <> ("&" <> (name <> ("=" <> value)))

-- `if let Some(value) = field`, percent-encoded.
abbrev pub push_text : String → Option String → String → String
push_text name none path = path
push_text name (some s) path = push name (percent_text s) path

abbrev pub push_int : String → Option ℤ → String → String
push_int name none path = path
push_int name (some n) path = push name (show_int n) path

-- The filter on `!m.trim().is_empty()`.
unfoldable pub nonblank : List String → List String
unfolding trim
nonblank [] = []
nonblank (m ∷ ms) = let rest = nonblank ms in if trim m == "" then rest else m ∷ rest

abbrev pub encoded : List String → List String
encoded [] = []
encoded (m ∷ ms) = percent_text m ∷ encoded ms

abbrev pub push_joined : String → String → String
push_joined methods path = if methods == "" then path else push "methods" methods path

abbrev pub push_methods : List String → String → String
push_methods [] path = path
push_methods (m ∷ ms) path = push_joined (join "," (encoded (nonblank (m ∷ ms)))) path

unfoldable pub append_query : AuditFilterParams → String → String
unfolding push nonblank join
append_query f path = push_text "brain_delta" f.brain_delta (
    push_text "verdict" f.verdict (
      push_text "reason" f.reason (
        push_text "original_method" f.original_method (
          push_methods f.methods (
            push_text "to" f.to (
              push_text "from" f.from
                (push_int "seq_to" f.seq_to (push_int "seq_from" f.seq_from path))))))))
