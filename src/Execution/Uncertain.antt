-- ===== src/Execution/Uncertain.antt =====
-- The handles for uncertain effects (src/execution.rs): which durable intents they match, which
-- of them reconciliation takes, and what it makes of an effect that the lookup finds.
use clavenar_sdk.Prelude.{
  ℕ, ◌≢◌, ◌↔◌, len, starts_with, ◌≡◌, refl, sym, subst, arith, Bool, true, false, not, ◌||◌, ◌==◌,
  String, eq_iff, nat_beq_iff, string_eq, nat_eq,
}
use clavenar_sdk.Effects.{ok}
use clavenar_sdk.Effects.Plain.{>>-ok, reject_if-false}
use clavenar_sdk.Platform.{Platform}
use clavenar_sdk.Records.{Uuid, SignedAuthorization, UncertainEffectReason, UncertainExecution}
use clavenar_sdk.Execution.Execute.{intent_of, uncertain_from_intent}
use clavenar_sdk.Execution.Validation.{
  validate_authorization, validate_uncertain_intent, validate_uncertain_execution,
  validate_executor_id,
}
use clavenar_sdk.Execution.Validation.Authorization.{validate_authorization-IsBound}

same_text : (s : String) → (s == s) ≡ true
same_text s = (eq_iff s s).1 refl

same_id : (n : ℕ) → (n == n) ≡ true
same_id n = (nat_beq_iff n n).1 refl

text-differs : (s t : String) → (s == t) ≡ false → s ≢ t
text-differs s t h e = let same = (eq_iff s t).1 e in cc

differs_text : (s t : String) → s ≢ t → (s == t) ≡ false
differs_text s t h = ground (arith, eq_iff s t)

differs_id : (n : ℕ) → n ≢ 0 → (n == 0) ≡ false
differs_id n h = ground (arith, nat_beq_iff n 0)

id-differs : (n : ℕ) → (n == 0) ≡ false → n ≢ 0
id-differs n h e = let same = (nat_beq_iff n 0).1 e in cc

-- The handle of an execution that was authorized.
abbrev pub handle_of :
    String → SignedAuthorization → UncertainEffectReason → Bool → UncertainExecution
handle_of executor_id signed reason registered =
    uncertain_from_intent (intent_of executor_id signed) reason registered

module _ (p : Platform) (executor_id : String) (signed : SignedAuthorization)
    (reason : UncertainEffectReason) (registered : Bool) where
  -- The handle that an uncertain execution returns matches the durable intent of the execution, for
  -- every authorization that the decision's checks let through.
  pub validate_uncertain_intent-uncertain_from_intent :
      (id : Uuid)
      → validate_authorization p signed id ≡ ok tt
      → validate_uncertain_intent p
          (handle_of executor_id signed reason registered)
          (intent_of executor_id signed)
        ≡ ok tt
  unfolding validate_uncertain_intent uncertain_from_intent intent_of
  validate_uncertain_intent-uncertain_from_intent id valid =
      let claims = signed.authorization in
      let valid' : validate_authorization p signed claims.idempotency_id ≡ ok tt =
        subst (λ i. validate_authorization p signed i ≡ ok tt)
          (sym (validate_authorization-IsBound p signed id valid).request) valid in
      rw
        (
          valid',
          same_id claims.authorization_id,
          same_id claims.idempotency_id,
          same_text claims.tenant,
          same_text claims.agent_id,
          same_text claims.agent_spiffe,
          same_text claims.payload_sha256,
          same_text executor_id,
        )
        refl

module _ (executor_id : String) (signed : SignedAuthorization) (reason : UncertainEffectReason)
    (registered : Bool) where
  -- What reconciliation demands of an authorization whose execution became uncertain.
  pub record IsReconcilable : Type 0 where
    pub authorization_id : signed.authorization.authorization_id ≢ 0
    pub idempotency_id : signed.authorization.idempotency_id ≢ 0
    pub tenant : signed.authorization.tenant ≢ ""
    pub workload_id : signed.authorization.agent_id ≢ ""
    pub workload_spiffe : signed.authorization.agent_spiffe ≢ ""
    pub digest_length : len signed.authorization.payload_sha256 ≡ 71
    pub digest_prefix : starts_with signed.authorization.payload_sha256 "sha256:" ≡ true
    pub executor : validate_executor_id executor_id ≡ ok tt

  accepted :
      validate_uncertain_execution (handle_of executor_id signed reason registered) ≡ ok tt
      → IsReconcilable
  unfolding validate_uncertain_execution uncertain_from_intent intent_of
  accepted h =
      let claims = signed.authorization in
      let (checked, executor) = >>-ok _ _ h in
      let (a, b, c, d, e, f, g) =
        parts (claims.authorization_id == 0) (claims.idempotency_id == 0) (claims.tenant == "")
          (claims.agent_id == "") (claims.agent_spiffe == "") (len claims.payload_sha256 == 71) _
          (reject_if-false _ _ checked) in
      record {
        authorization_id = id-differs _ a;
        idempotency_id = id-differs _ b;
        tenant = text-differs _ _ c;
        workload_id = text-differs _ _ d;
        workload_spiffe = text-differs _ _ e;
        digest_length = (nat_beq_iff _ _).0 f;
        digest_prefix = g;
        executor = executor;
      }
    where
      parts :
          (a b c d e f g : Bool)
          → (a || (b || (c || (d || (e || (not f || not g)))))) ≡ false
          → (a ≡ false)
            × (b ≡ false)
            × (c ≡ false)
            × (d ≡ false)
            × (e ≡ false)
            × (f ≡ true)
            × (g ≡ true)
      parts a b c d e f g h = ground arith

  demanded :
      IsReconcilable
      → validate_uncertain_execution (handle_of executor_id signed reason registered) ≡ ok tt
  unfolding validate_uncertain_execution uncertain_from_intent intent_of
  demanded h =
      rw
        (
          differs_id _ h.authorization_id,
          differs_id _ h.idempotency_id,
          differs_text _ _ h.tenant,
          differs_text _ _ h.workload_id,
          differs_text _ _ h.workload_spiffe,
          (nat_beq_iff _ _).1 h.digest_length,
          h.digest_prefix,
          h.executor,
        )
        refl

  -- Reconciliation takes the handle of an uncertain execution exactly where the authorization and
  -- idempotency ids are not nil, the tenant, the workload and its SPIFFE id are not empty, the
  -- digest is a SHA-256 of 71 bytes, and the executor's id is valid.
  pub validate_uncertain_execution_iff :
      (validate_uncertain_execution (handle_of executor_id signed reason registered) ≡ ok tt)
      ↔ IsReconcilable
  validate_uncertain_execution_iff = (accepted, demanded)
