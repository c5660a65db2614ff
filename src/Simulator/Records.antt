-- ===== src/Simulator/Records.antt =====
-- The answers of the simulator (src/sim.rs).
use clavenar_sdk.Prelude.{ℕ, Bool, String, Option, List}
use clavenar_sdk.Json.{Float}

pub record SimAgentRecord : Type 0 where
  pub cn : String
  pub persona : String
  pub rate_lambda : Float
  pub transient : Bool

pub record SimStats : Type 0 where
  pub sent : ℕ
  pub ok : ℕ
  pub denied : ℕ
  pub error : ℕ
  pub success_pct : Float
  pub p50_ms : Option Float
  pub p95_ms : Option Float

pub record SimStatus : Type 0 where
  pub traffic_multiplier : Float
  pub running : Bool
  pub auto_decide : Option Bool
  pub agents : List SimAgentRecord
  pub stats : SimStats
