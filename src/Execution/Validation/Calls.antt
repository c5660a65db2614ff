-- ===== src/Execution/Validation/Calls.antt =====
-- What the checks on a batch of tool calls (src/execution.rs) establish.
use clavenar_sdk.Prelude.{
  ℕ, ◌≤◌, ◌≡◌, ◌≢◌, ◌↔◌, refl, sym, arith, nat_eq, Bool, false, ◌||◌, ◌==◌, String, len, List, [],
  ◌∷◌, length, contains, eq_iff, All, string_eq, ltb,
}
use clavenar_sdk.Effects.{ok}
use clavenar_sdk.Effects.Plain.{guarded-eq-ok, reject_if-ok}
use clavenar_sdk.Records.{ModelToolCall}
use clavenar_sdk.Execution.Validation.{
  validate_model_tool_calls, validate_calls, call_ids, out_of_bounds,
}

-- A name or an id of 1 to 256 bytes.
abbrev pub IsSized : String → Type 0
IsSized s = (s ≢ "") × (len s ≤ 256)

-- No entry of the list is `s`.
abbrev pub IsFresh : List String → String → Type 0
IsFresh ids s = All (λ t. s ≢ t) ids

abbrev pub IsDistinct : List String → Type 0
IsDistinct [] = Unit
IsDistinct (s ∷ ss) = IsFresh ss s × IsDistinct ss

-- A batch that can be decided and executed call by call.
pub record IsBatch (calls : List ModelToolCall) : Type 0 where
  pub nonempty : 1 ≤ length calls
  pub bounded : length calls ≤ 128
  pub ids_sized : All (λ (call : ModelToolCall). IsSized call.id) calls
  pub names_sized : All (λ (call : ModelToolCall). IsSized call.name) calls
  pub distinct : IsDistinct (call_ids calls)

pub out_of_bounds-IsSized : (s : String) → out_of_bounds s ≡ false → IsSized s
out_of_bounds-IsSized s h = ground (arith, eq_iff s "")

pub IsSized-out_of_bounds : (s : String) → IsSized s → out_of_bounds s ≡ false
IsSized-out_of_bounds s h = ground (arith, eq_iff s "")

contains-IsFresh : (ids : List String) (s : String) → contains ids s ≡ false → IsFresh ids s
contains-IsFresh [] s h = tt
contains-IsFresh (t ∷ ids) s h =
    (ground (arith, eq_iff s t), contains-IsFresh ids s (ground (arith, eq_iff s t)))

IsFresh-contains : (ids : List String) (s : String) → IsFresh ids s → contains ids s ≡ false
IsFresh-contains [] s h = refl
IsFresh-contains (t ∷ ids) s h = ground (arith, eq_iff s t, IsFresh-contains ids s h.1, h.0)

-- Each call's id is fresh among the ids inserted so far.
abbrev AllFresh : List String → List ModelToolCall → Type 0
AllFresh ids = All (λ (call : ModelToolCall). IsFresh ids call.id)

apart :
    (s : String) (ids : List String) (calls : List ModelToolCall)
    → AllFresh (s ∷ ids) calls
    → IsFresh (call_ids calls) s × AllFresh ids calls
unfolding call_ids
apart s ids [] h = (tt, tt)
apart s ids (call ∷ calls) ((new, old), h) =
    let (fresh, rest) = apart s ids calls h in ((λ e. new (sym e), fresh), (old, rest))

joint :
    (s : String) (ids : List String) (calls : List ModelToolCall)
    → IsFresh (call_ids calls) s
    → AllFresh ids calls
    → AllFresh (s ∷ ids) calls
unfolding call_ids
joint s ids [] fresh h = tt
joint s ids (call ∷ calls) (new, fresh) (old, h) =
    ((λ e. new (sym e), old), joint s ids calls fresh h)

-- What the loop establishes of the calls that are left.
record IsLoop (ids : List String) (calls : List ModelToolCall) : Type 0 where
  ids_sized : All (λ (call : ModelToolCall). IsSized call.id) calls
  names_sized : All (λ (call : ModelToolCall). IsSized call.name) calls
  distinct : IsDistinct (call_ids calls)
  fresh : AllFresh ids calls

validate_calls-IsLoop :
    (ids : List String) (calls : List ModelToolCall)
    → validate_calls ids calls ≡ ok tt
    → IsLoop ids calls
unfolding validate_calls call_ids
validate_calls-IsLoop ids [] h = record {
  ids_sized = tt;
  names_sized = tt;
  distinct = tt;
  fresh = tt;
}
validate_calls-IsLoop ids (call ∷ calls) h =
    let (id_ok, h0) = guarded-eq-ok (out_of_bounds call.id || contains ids call.id) _ _ h in
    let (name_ok, h1) = guarded-eq-ok (out_of_bounds call.name) _ _ h0 in
    let (sized, unseen) = both_false (out_of_bounds call.id) (contains ids call.id) id_ok in
    let rest = validate_calls-IsLoop (call.id ∷ ids) calls h1 in
    let (new, old) = apart call.id ids calls rest.fresh in
    record {
      ids_sized = (out_of_bounds-IsSized call.id sized, rest.ids_sized);
      names_sized = (out_of_bounds-IsSized call.name name_ok, rest.names_sized);
      distinct = (new, rest.distinct);
      fresh = (contains-IsFresh ids call.id unseen, old);
    }
  where
    both_false : (a b : Bool) → (a || b) ≡ false → (a ≡ false) × (b ≡ false)
    both_false a b h = ground arith

IsLoop-validate_calls :
    (ids : List String) (calls : List ModelToolCall)
    → IsLoop ids calls
    → validate_calls ids calls ≡ ok tt
unfolding validate_calls call_ids
IsLoop-validate_calls ids [] h = refl
IsLoop-validate_calls ids (call ∷ calls) h =
    rw
      (
        IsSized-out_of_bounds call.id h.ids_sized.0,
        IsFresh-contains ids call.id h.fresh.0,
        IsSized-out_of_bounds call.name h.names_sized.0,
      )
      (IsLoop-validate_calls (call.id ∷ ids) calls (record {
        ids_sized = h.ids_sized.1;
        names_sized = h.names_sized.1;
        distinct = h.distinct.1;
        fresh = joint call.id ids calls h.distinct.0 h.fresh.1;
      }))

-- The validation of a batch accepts exactly the batches of 1 to 128 calls whose ids and names have
-- 1 to 256 bytes and whose ids are pairwise different.
pub validate_model_tool_calls_iff :
    (calls : List ModelToolCall) → (validate_model_tool_calls calls ≡ ok tt) ↔ IsBatch calls
unfolding validate_model_tool_calls
validate_model_tool_calls_iff calls = (sound, complete)
  where
    all_fresh : (cs : List ModelToolCall) → AllFresh [] cs
    all_fresh [] = tt
    all_fresh (c ∷ cs) = (tt, all_fresh cs)

    within : (n : ℕ) → (n == 0 || ltb 128 n) ≡ false → (1 ≤ n) × (n ≤ 128)
    within n h = ground arith

    outside : (n : ℕ) → 1 ≤ n → n ≤ 128 → (n == 0 || ltb 128 n) ≡ false
    outside n h k = ground arith

    sound : validate_model_tool_calls calls ≡ ok tt → IsBatch calls
    sound h =
        let (counted, h0) = reject_if-ok _ _ _ h in
        let (low, high) = within (length calls) counted in
        let loop = validate_calls-IsLoop [] calls h0 in
        record {
          nonempty = low;
          bounded = high;
          ids_sized = loop.ids_sized;
          names_sized = loop.names_sized;
          distinct = loop.distinct;
        }

    complete : IsBatch calls → validate_model_tool_calls calls ≡ ok tt
    complete h = rw (outside (length calls) h.nonempty h.bounded) (
        IsLoop-validate_calls [] calls (record {
          ids_sized = h.ids_sized;
          names_sized = h.names_sized;
          distinct = h.distinct;
          fresh = all_fresh calls;
        }))
