-- ===== src/Settings/Override.antt =====
-- cmd/nous/main.go, `run`: the engines have the default settings where the configuration has no positive value.
use nous.Prelude.{if◌then◌else◌}
use nous.Prelude.Int.{pos, ltb_ℤ}
use nous.Prelude.Float.{Float64}
use nous.Risk.Engine
use nous.Intervene.Engine as Policy
use nous.Settings.{RiskConfig, InterventionConfig}

module _ {F : Type 0} ⦃fl : Float64 F⦄ where
  -- `if v > 0 { field = v }`
  abbrev pub positive_or : F → F → F
  positive_or v d = if fl.lt (fl.hundredths 0) v then v else d

  unfoldable pub risk_settings : RiskConfig F → Engine.Config F
  risk_settings c =
      let d : Engine.Config F = Engine.default_config in
      record {
        overdue_weight = positive_or c.overdue_weight d.overdue_weight;
        due_soon_weight = positive_or c.due_soon_weight d.due_soon_weight;
        due_soon_window =
            if ltb_ℤ (pos 0) c.due_soon_window then c.due_soon_window else d.due_soon_window;
        confidence_weight = positive_or c.confidence_weight d.confidence_weight;
        signal_weight = positive_or c.signal_weight d.signal_weight;
      }

  unfoldable pub intervention_settings : InterventionConfig F → Policy.Config F
  intervention_settings c =
      let d : Policy.Config F = Policy.default_config in
      record {
        nudge_threshold = positive_or c.nudge_threshold d.nudge_threshold;
        escalate_threshold = positive_or c.escalate_threshold d.escalate_threshold;
        automation_confidence = positive_or c.automation_confidence d.automation_confidence;
      }
