-- ===== src/Risk/Types.antt =====
-- internal/risk/engine.go: the result types of the engine.
use nous.Prelude.{String, List}

pub record RiskFactor (F : Type 0) : Type 0 where
  pub type : String
  pub weight : F
  pub reason : String

pub record RiskAssessment (F : Type 0) : Type 0 where
  pub score : F
  pub factors : List (RiskFactor F)
  pub confidence : F
