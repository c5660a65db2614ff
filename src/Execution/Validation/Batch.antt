-- ===== src/Execution/Validation/Batch.antt =====
-- What the check on the authorization of a batch (src/execution.rs) establishes.
use clavenar_sdk.Prelude.{
  ◌≡◌, refl, arith, Bool, true, false, not, ◌&&◌, ◌||◌, ◌==◌, String, Option, none, List, [], ◌∷◌,
  is_some, eq_iff, string_eq,
}
use clavenar_sdk.Effects.{Result, ok, err, map_err}
use clavenar_sdk.Effects.Plain.{reject_if-false, >>-ok, ◌>>=◌}
use clavenar_sdk.Json.{Value, value_eq}
use clavenar_sdk.Platform.{Platform}
use clavenar_sdk.Records.{Uuid, ModelToolCall, SignedAuthorization, AtomicBatchEnvelope}
use clavenar_sdk.Records.Equality.{strings_beq, strings_eq}
use clavenar_sdk.Execution.Contracts.{
  atomic_tool_call_batch_contract, atomic_tool_call_batch_method, atomic_tool_call_batch_name,
}
use clavenar_sdk.Execution.Validation.{
  validate_batch_authorization, check_envelope, call_ids, invalid_batch,
}
use clavenar_sdk.Execution.Validation.Calls.{IsBatch, validate_model_tool_calls_iff}

pub strings_beq-eq : (a b : List String) → strings_beq a b ≡ true → a ≡ b
strings_beq-eq [] [] h = refl
strings_beq-eq (s ∷ ss) (t ∷ ts) h =
    cc ((eq_iff s t).0 (both (s == t) _ h).0, strings_beq-eq ss ts (both (s == t) _ h).1)
  where
    both : (a b : Bool) → (a && b) ≡ true → (a ≡ true) × (b ≡ true)
    both a b h = ground arith
strings_beq-eq [] (t ∷ ts) h = cc
strings_beq-eq (s ∷ ss) [] h = cc

pub strings_beq_refl : (a : List String) → strings_beq a a ≡ true
strings_beq_refl [] = refl
strings_beq_refl (s ∷ ss) = rw (strings_beq_refl ss) (ground (arith, eq_iff s s))

module _ (p : Platform) (signed : SignedAuthorization) (id : Uuid) (calls : List ModelToolCall)
    (payload : Value) where
  -- The envelope that Proxy signed is a batch for the request, with the calls in their order.
  pub record IsSameBatch (envelope : AtomicBatchEnvelope) : Type 0 where
    pub batch : IsBatch envelope.params.arguments.calls
    pub same_ids : call_ids envelope.params.arguments.calls ≡ call_ids calls
    pub request : envelope.id ≡ p.uuid_to_string id
    pub method : envelope.method ≡ atomic_tool_call_batch_method
    pub unmodified :
        signed.authorization.modification_diff ≡ none
        → (signed.authorization.execution_payload == payload) ≡ true

  check_envelope-IsSameBatch :
      (envelope : AtomicBatchEnvelope)
      → check_envelope p signed id calls payload envelope ≡ ok tt
      → IsSameBatch envelope
  unfolding check_envelope
  check_envelope-IsSameBatch envelope h =
      let (valid, rest) = >>-ok _ _ h in
      let (request, method, ids, payload_kept) =
        parts (envelope.jsonrpc == "2.0") (envelope.id == p.uuid_to_string id)
          (envelope.method == atomic_tool_call_batch_method)
          (envelope.params.name == atomic_tool_call_batch_name)
          (envelope.params.arguments.contract == atomic_tool_call_batch_contract)
          (call_ids envelope.params.arguments.calls == call_ids calls) _
          (reject_if-false _ _ rest) in
      record {
        batch = (validate_model_tool_calls_iff envelope.params.arguments.calls).0 valid;
        same_ids = strings_beq-eq _ _ ids;
        request = (eq_iff _ _).0 request;
        method = (eq_iff _ _).0 method;
        unmodified = kept signed.authorization.modification_diff _ payload_kept;
      }
    where
      parts :
          (a b c d e f g : Bool)
          → (not a || (not b || (not c || (not d || (not e || (not f || g)))))) ≡ false
          → (b ≡ true) × (c ≡ true) × (f ≡ true) × (g ≡ false)
      parts a b c d e f g h = ground arith

      kept :
          (diff : Option Value) (same : Bool)
          → (not (is_some diff) && not same) ≡ false
          → diff ≡ none
          → same ≡ true
      kept diff same h e = ground arith

  parsed :
      (r : Result String AtomicBatchEnvelope)
      → (map_err (λ _. invalid_batch) r >>= check_envelope p signed id calls payload) ≡ ok tt
      → (envelope : AtomicBatchEnvelope) × (r ≡ ok envelope) × IsSameBatch envelope
  parsed (ok envelope) h = (envelope, refl, check_envelope-IsSameBatch envelope h)
  parsed (err e) h = cc

  -- A batch authorization that passes the check has an execution payload that reads as a batch
  -- envelope for the request, of 1 to 128 sized calls with distinct ids, which are the requested
  -- ids in the requested order; unless Proxy modified it, the payload is the requested one.
  pub validate_batch_authorization-IsSameBatch :
      validate_batch_authorization p signed id calls payload ≡ ok tt
      → (envelope : AtomicBatchEnvelope) × (p.batch_envelope_from_value
            signed.authorization.execution_payload
          ≡ ok envelope)
        × IsSameBatch envelope
  unfolding validate_batch_authorization
  validate_batch_authorization-IsSameBatch h = parsed _ h
