-- ===== src/Agents/Matching.antt =====
-- What a match of a request with a registered agent (src/agents.rs) says.
use clavenar_sdk.Prelude.{
  ◌≡◌, ◌↔◌, ◌⊎◌, inl, inr, refl, sym, subst, ◌∙◌, ap, arith, Bool, true, false, not, ◌||◌, String,
  some, List, [], ◌∷◌, ◌==◌, string_eq, eq_iff, contains, Bool-cases, if◌then◌else◌,
}
use clavenar_sdk.Json.Canonical.{sort_keys, str_le}
use clavenar_sdk.Json.Ordering.{str_le_trans, str_le_antisym}
use clavenar_sdk.Json.Sorted.{
  contains-sort_keys, IsSorted, IsAscending, sort_keys-IsSorted, ascending_unique, HasSame, either,
  str_le_refl, own,
}
use clavenar_sdk.Records.Equality.{strings_beq}
use clavenar_sdk.Execution.Validation.Batch.{strings_beq-eq, strings_beq_refl}
use clavenar_sdk.Agents.{
  AgentState, active, suspended, decommissioned, as_wire, parse, dedup, same_set, AgentRecord,
  CreateAgentRequest, create_request_matches,
}

-- The Rust spelling of a state, which the SQL side uses.
abbrev pub capitalised : AgentState → String
capitalised active = "Active"
capitalised suspended = "Suspended"
capitalised decommissioned = "Decommissioned"

-- A state is parsed from its wire form and from its capitalised name, and from no other text, so
-- that parsing takes the wire form back.
pub parse_iff :
    (s : String) (state : AgentState)
    → (parse s ≡ some state) ↔ ((s ≡ as_wire state) ⊎ (s ≡ capitalised state))
unfolding parse as_wire
parse_iff s state = (from_text state, to_state state)
  where
    from_text : (st : AgentState) → parse s ≡ some st → (s ≡ as_wire st) ⊎ (s ≡ capitalised st)
    from_text active h = ground (
      arith,
      eq_iff s "active",
      eq_iff s "Active",
      eq_iff s "suspended",
      eq_iff s "Suspended",
      eq_iff s "decommissioned",
      eq_iff s "Decommissioned",
    )
    from_text suspended h = ground (
      arith,
      eq_iff s "active",
      eq_iff s "Active",
      eq_iff s "suspended",
      eq_iff s "Suspended",
      eq_iff s "decommissioned",
      eq_iff s "Decommissioned",
    )
    from_text decommissioned h = ground (
      arith,
      eq_iff s "active",
      eq_iff s "Active",
      eq_iff s "suspended",
      eq_iff s "Suspended",
      eq_iff s "decommissioned",
      eq_iff s "Decommissioned",
    )

    to_state : (st : AgentState) → (s ≡ as_wire st) ⊎ (s ≡ capitalised st) → parse s ≡ some st
    to_state active (inl e) = rw e refl
    to_state active (inr e) = rw e refl
    to_state suspended (inl e) = rw e refl
    to_state suspended (inr e) = rw e refl
    to_state decommissioned (inl e) = rw e refl
    to_state decommissioned (inr e) = rw e refl

or_again : (a b : Bool) → (a || b) ≡ (a || (a || b))
or_again a b = ground arith

contains-dedup : (ks : List String) (s : String) → contains (dedup ks) s ≡ contains ks s
unfolding dedup
contains-dedup [] s = refl
contains-dedup (k ∷ []) s = refl
contains-dedup (k ∷ (j ∷ js)) s = elim (Bool-cases (k == j)) [
  | inl e ↦
      rw (e, contains-dedup (j ∷ js) s) (rw ((eq_iff k j).0 e) (or_again (s == j) (contains js s)))
  | inr e ↦ rw (e, contains-dedup (j ∷ js) s) refl
]

same_set-HasSame : (a b : List String) → same_set a b ≡ true → HasSame a b
unfolding same_set
same_set-HasSame a b h s =
    sym (contains-dedup (sort_keys a) s ∙ contains-sort_keys a s)
    ∙ (ap (λ ks. contains ks s) (strings_beq-eq _ _ h)
        ∙ (contains-dedup (sort_keys b) s ∙ contains-sort_keys b s))

dedup-IsAscending : (ks : List String) → IsSorted ks → IsAscending (dedup ks)
unfolding dedup
dedup-IsAscending [] h = tt
dedup-IsAscending (k ∷ []) h = ((λ s c. absurd (none_there c)), tt)
  where
    none_there : false ≡ true → ⊥
    none_there q = cc
dedup-IsAscending (k ∷ (j ∷ js)) (below, (further, h)) = elim (Bool-cases (k == j)) [
  | inl e ↦ rw e (dedup-IsAscending (j ∷ js) (further, h))
  | inr e ↦ rw e (
    (λ s c. strictly s e (sym (contains-dedup (j ∷ js) s) ∙ c)),
    dedup-IsAscending (j ∷ js) (further, h),
  )
]
  where
    strictly : (s : String) → (k == j) ≡ false → contains (j ∷ js) s ≡ true → str_le s k ≡ false
    strictly s e c = elim (Bool-cases (str_le s k)) [
      | inl q ↦ absurd (
          clash e (
            (eq_iff k j).1 (
              str_le_antisym k j (below j (ap (λ b. b || contains js j) (own j)))
                (str_le_trans j s k (from_either s (either (s == j) (contains js s) c)) q))))
      | inr q ↦ q
    ]
      where
        clash : (k == j) ≡ false → (k == j) ≡ true → ⊥
        clash x y = cc

        from_either : (x : String) → ((x == j) ≡ true) ⊎ (contains js x ≡ true) → str_le j x ≡ true
        from_either x (inl y) =
            subst (λ z. str_le j z ≡ true) (sym ((eq_iff x j).0 y)) (str_le_refl j)
        from_either x (inr y) = further x y

HasSame-same_set : (a b : List String) → HasSame a b → same_set a b ≡ true
unfolding same_set
HasSame-same_set a b same =
    subst (λ ks. strings_beq (dedup (sort_keys a)) ks ≡ true)
      (ascending_unique _ _ (dedup-IsAscending _ (sort_keys-IsSorted a))
        (dedup-IsAscending _ (sort_keys-IsSorted b))
        (λ s.
          contains-dedup (sort_keys a) s
          ∙ contains-sort_keys a s
          ∙ (same s ∙ sym (contains-dedup (sort_keys b) s ∙ contains-sort_keys b s))))
      (strings_beq_refl (dedup (sort_keys a)))

-- What a match says of the request and the record.
pub record IsMatch (req : CreateAgentRequest) (found : AgentRecord) : Type 0 where
  pub tenant : req.tenant ≡ found.tenant
  pub agent_name : req.agent_name ≡ found.agent_name
  pub owner_team : req.owner_team ≡ found.owner_team
  pub scope : HasSame req.scope_envelope found.scope_envelope
  pub yellow : HasSame req.yellow_envelope found.yellow_envelope
  pub attestation : HasSame req.attestation_kinds found.attestation_kinds_accepted

-- A creation is taken for done only where the registered agent has the request's tenant, name and
-- team, and its scope, its yellow envelope and its attestation kinds have exactly the entries that
-- the request asks for.
pub create_request_matches-IsMatch :
    (req : CreateAgentRequest) (found : AgentRecord)
    → create_request_matches req found ≡ true
    → IsMatch req found
unfolding create_request_matches
create_request_matches-IsMatch req found h =
    let (tenant, name, team, scope, yellow, kinds) =
      parts (req.tenant == found.tenant) (req.agent_name == found.agent_name)
        (req.owner_team == found.owner_team) (same_set req.scope_envelope found.scope_envelope)
        (same_set req.yellow_envelope found.yellow_envelope)
        (same_set req.attestation_kinds found.attestation_kinds_accepted) h in
    record {
      tenant = (eq_iff _ _).0 tenant;
      agent_name = (eq_iff _ _).0 name;
      owner_team = (eq_iff _ _).0 team;
      scope = same_set-HasSame _ _ scope;
      yellow = same_set-HasSame _ _ yellow;
      attestation = same_set-HasSame _ _ kinds;
    }
  where
    parts :
        (a b c d e f : Bool)
        → (if not a || (not b || not c)
            then false
            else if not d || (not e || not f)
            then false
            else true)
          ≡ true
        → (a ≡ true) × (b ≡ true) × (c ≡ true) × (d ≡ true) × (e ≡ true) × (f ≡ true)
    parts a b c d e f h = ground arith

-- A creation is taken for done exactly where the registered agent has the request's tenant, name
-- and team, and its scope, its yellow envelope and its attestation kinds have the same entries as
-- the request's, in any order and any number.
pub create_request_matches_iff :
    (req : CreateAgentRequest) (found : AgentRecord)
    → (create_request_matches req found ≡ true) ↔ IsMatch req found
unfolding create_request_matches
create_request_matches_iff req found = (
  create_request_matches-IsMatch req found,
  λ m.
      rw
        (
          (eq_iff _ _).1 m.tenant,
          (eq_iff _ _).1 m.agent_name,
          (eq_iff _ _).1 m.owner_team,
          HasSame-same_set _ _ m.scope,
          HasSame-same_set _ _ m.yellow,
          HasSame-same_set _ _ m.attestation,
        )
        refl,
)
