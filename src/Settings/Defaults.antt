-- ===== src/Settings/Defaults.antt =====
-- internal/config/config.go and cmd/nous/main.go: the engines of an environment that tunes nothing, and of one
-- that does.
use nous.Prelude.{ℕ, true, false, Option, String, ◌≡◌, ◌≤◌, ◌⊎◌, refl, arith}
use nous.Prelude.Time.{Duration}
use nous.Prelude.Float.{Float64, InUnit, hundredths_le}
use nous.Risk.Engine
use nous.Risk.Engine.Bounds.{IsSane}
use nous.Intervene.Engine as Policy
use nous.Settings.{RiskConfig, read_env}
use nous.Settings.Override.{positive_or, risk_settings, intervention_settings}

-- None of the variables that tune the engines is set.
pub record IsUntuned (env : String → String) : Type 0 where
  pub overdue : env "NOUS_RISK_OVERDUE_WEIGHT" ≡ ""
  pub due_soon : env "NOUS_RISK_DUE_SOON_WEIGHT" ≡ ""
  pub window : env "NOUS_RISK_DUE_SOON_WINDOW" ≡ ""
  pub confidence : env "NOUS_RISK_CONFIDENCE_WEIGHT" ≡ ""
  pub signal : env "NOUS_RISK_SIGNAL_WEIGHT" ≡ ""
  pub nudge : env "NOUS_NUDGE_THRESHOLD" ≡ ""
  pub escalate : env "NOUS_ESCALATE_THRESHOLD" ≡ ""
  pub automation : env "NOUS_AUTOMATION_CONFIDENCE" ≡ ""

module _ {F : Type 0} ⦃fl : Float64 F⦄ where
  zero_or : (d : F) → positive_or (fl.hundredths 0) d ≡ d
  zero_or d = rw (fl.lt_irrefl (fl.hundredths 0)) refl

  -- A weight that the configuration sets is a number between 0 and 1; one that is not above 0 is not set.
  abbrev pub IsWeight : F → Type 0
  IsWeight v = (fl.lt (fl.hundredths 0) v ≡ false) ⊎ InUnit v

  positive_or-InUnit :
      (v : F) (n : ℕ) → n ≤ 100 → IsWeight v → InUnit (positive_or v (fl.hundredths n))
  positive_or-InUnit v n h w = ground (arith, hundredths_le fl 0 n, hundredths_le fl n 100)

  -- With weights between 0 and 1, or not set, and an overdue commitment weighing at least one that is due
  -- soon after the defaults are filled in, the risk engine that the program starts is one whose score
  -- never falls as time passes.
  pub risk_settings-IsSane :
      (c : RiskConfig F)
      → IsWeight c.overdue_weight
      → IsWeight c.due_soon_weight
      → IsWeight c.confidence_weight
      → IsWeight c.signal_weight
      → fl.le (risk_settings c).due_soon_weight (risk_settings c).overdue_weight ≡ true
      → IsSane (risk_settings c)
  unfolding risk_settings
  risk_settings-IsSane c o d f s g = record {
    overdue = positive_or-InUnit c.overdue_weight 60 (omega arith) o;
    due_soon = positive_or-InUnit c.due_soon_weight 30 (omega arith) d;
    confidence = positive_or-InUnit c.confidence_weight 20 (omega arith) f;
    signal = positive_or-InUnit c.signal_weight 15 (omega arith) s;
    grades = g;
  }

  -- An environment that sets none of the variables that tune the engines runs both engines with their
  -- defaults, whatever else it sets.
  pub untuned_defaults :
      (to_lower : String → String) (parse_duration : String → Option Duration)
      (parse_float : String → Option F) (env : String → String)
      → IsUntuned env
      → (risk_settings (read_env to_lower parse_duration parse_float env).risk
          ≡ Engine.default_config)
        × (intervention_settings (read_env to_lower parse_duration parse_float env).intervention
            ≡ Policy.default_config)
  unfolding read_env risk_settings intervention_settings
  untuned_defaults to_lower parse_duration parse_float env u =
      rw
        (u.overdue, u.due_soon, u.window, u.confidence, u.signal, u.nudge, u.escalate, u.automation)
        (rw (fl.lt_irrefl (fl.hundredths 0)) (refl, refl))
