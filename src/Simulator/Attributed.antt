-- ===== src/Simulator/Attributed.antt =====
-- Every change to the simulator (src/sim.rs) is attributed to a valid operator.
use clavenar_sdk.Prelude.{
  ℕ, ◌≤◌, ◌≡◌, ◌≢◌, refl, String, Bool, true, some, List, [], ◌∷◌, len, string_eq, string_beq_iff,
  All, arith,
}
use clavenar_sdk.Effects.{Result, ok, Run}
use clavenar_sdk.Error.{ClavenarError}
use clavenar_sdk.Execution.Validation.{all_chars, is_ascii_graphic}
use clavenar_sdk.Json.{Value, Float}
use clavenar_sdk.Platform.{Platform}
use clavenar_sdk.Service.{Request}
use clavenar_sdk.Service.Authorization.{named, IsDone, perform-Exchanges}
use clavenar_sdk.Service.Exchange.{Exchanges, lift>>=-Exchanges}
use clavenar_sdk.Service.Text.{codes}
use clavenar_sdk.Simulator.Records.{SimStatus}
use clavenar_sdk.Simulator.Client.{
  SimCodec, SimClient, default_operator, max_operator_bytes, validate_operator, with_timeout,
  post_json_as,
}
use clavenar_sdk.Simulator.Client

pub data Change : Type 0 where
  set_multiplier : Float → Change
  set_multiplier_as : String → Float → Change
  set_running : Bool → Change
  set_running_as : String → Bool → Change
  set_auto_decide : Bool → Change
  set_auto_decide_as : String → Bool → Change
  add_agents : String → ℕ → Change
  add_agents_as : String → String → ℕ → Change

abbrev pub Answer : Change → Type 0
Answer (set_multiplier _) = SimStatus
Answer (set_multiplier_as _ _) = SimStatus
Answer (set_running _) = SimStatus
Answer (set_running_as _ _) = SimStatus
Answer (set_auto_decide _) = SimStatus
Answer (set_auto_decide_as _ _) = SimStatus
Answer (add_agents _ _) = List String
Answer (add_agents_as _ _ _) = List String

abbrev pub operator_of : Change → String
operator_of (set_multiplier _) = default_operator
operator_of (set_multiplier_as operator _) = operator
operator_of (set_running _) = default_operator
operator_of (set_running_as operator _) = operator
operator_of (set_auto_decide _) = default_operator
operator_of (set_auto_decide_as operator _) = operator
operator_of (add_agents _ _) = default_operator
operator_of (add_agents_as operator _ _) = operator

module _ (p : Platform) (codec : SimCodec) {W : Type 0} (client : SimClient W) where
  unfoldable pub run : (c : Change) → Run W ClavenarError (Answer c)
  run (set_multiplier multiplier) = Client.set_multiplier p codec client multiplier
  run (set_multiplier_as operator multiplier) =
      Client.set_multiplier_as p codec client operator multiplier
  run (set_running running) = Client.set_running p codec client running
  run (set_running_as operator running) = Client.set_running_as p codec client operator running
  run (set_auto_decide enabled) = Client.set_auto_decide p codec client enabled
  run (set_auto_decide_as operator enabled) =
      Client.set_auto_decide_as p codec client operator enabled
  run (add_agents persona count) = Client.add_agents p codec client persona count
  run (add_agents_as operator persona count) =
      Client.add_agents_as p codec client operator persona count

-- One to 128 bytes, all of them visible ASCII.
abbrev pub IsOperator : String → Type 0
IsOperator s = (s ≢ "") × (len s ≤ 128) × All (λ c. (33 ≤ c) × (c ≤ 126)) (codes s)

visible :
    (s : String) → all_chars is_ascii_graphic s ≡ true → All (λ c. (33 ≤ c) × (c ≤ 126)) (codes s)
unfolding all_chars is_ascii_graphic
visible String.[] h = tt
visible (String.◌∷◌ c s) h = ground (arith, h, visible s)

validate_operator-IsOperator : (s : String) → validate_operator s ≡ ok tt → IsOperator s
unfolding validate_operator
validate_operator-IsOperator s h =
    (λ e. ground (arith, string_beq_iff s "", h), ground (arith, h), visible s (ground (arith, h)))

module _ (p : Platform) (codec : SimCodec) {W : Type 0} (client : SimClient W) where
  -- A request of a valid operator, named once, under the client's deadline.
  abbrev pub IsAttributed : String → Request → Type 0
  IsAttributed operator r =
      IsOperator operator
      × (named "x-clavenar-operator" r.headers ≡ operator ∷ [])
      × (r.timeout ≡ some client.request_timeout)

  post_json_as-IsAttributed :
      {A : Type 0} (parse : String → Result String A) (operator path : String) (body : Value)
      → Exchanges client.http
          (IsAttributed operator)
          IsDone
          (post_json_as p client parse operator path body)
  unfolding post_json_as
  post_json_as-IsAttributed parse operator path body =
      lift>>=-Exchanges client.http _ IsDone _ _ (λ u v.
        lift>>=-Exchanges client.http _ IsDone _ _ (λ url h.
          perform-Exchanges p client.http _ parse _
            (validate_operator-IsOperator operator v, refl, refl)))

  -- Every change makes at most one exchange, of a request that is attributed to its operator: the
  -- default one where none is given. With an invalid operator nothing is sent. A change that succeeds
  -- was answered by a 200 or a 201.
  pub run-IsAttributed :
      (c : Change)
      → Exchanges client.http (IsAttributed (operator_of c)) IsDone (run p codec client c)
  unfolding run Client.set_multiplier Client.set_multiplier_as Client.set_running
      Client.set_running_as Client.set_auto_decide Client.set_auto_decide_as Client.add_agents
      Client.add_agents_as
  run-IsAttributed (set_multiplier multiplier) = post_json_as-IsAttributed _ _ _ _
  run-IsAttributed (set_multiplier_as operator multiplier) = post_json_as-IsAttributed _ _ _ _
  run-IsAttributed (set_running running) = post_json_as-IsAttributed _ _ _ _
  run-IsAttributed (set_running_as operator running) = post_json_as-IsAttributed _ _ _ _
  run-IsAttributed (set_auto_decide enabled) = post_json_as-IsAttributed _ _ _ _
  run-IsAttributed (set_auto_decide_as operator enabled) = post_json_as-IsAttributed _ _ _ _
  run-IsAttributed (add_agents persona count) = post_json_as-IsAttributed _ _ _ _
  run-IsAttributed (add_agents_as operator persona count) = post_json_as-IsAttributed _ _ _ _
