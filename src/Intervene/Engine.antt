-- ===== src/Intervene/Engine.antt =====
-- internal/intervention/engine.go: the policy over a risk assessment.
pub mod Policy
pub mod Defaults
use nous.Prelude.{
  ℕ, Bool, true, false, ◌&&◌, Option, none, some, String, List, [], ◌∷◌, if◌then◌else◌,
}
use nous.Prelude.Time.{Time}
use nous.Prelude.Float.{Float64}
use nous.Domain.Errors.{Uuid, Error, Result, ok, err}
use nous.Domain.Commitment.{Commitment}
use nous.Domain.Intervention.{
  Intervention, InterventionType, nudge, escalation, automation, new_intervention,
}
use nous.Risk.Types.{RiskFactor, RiskAssessment}

pub record Config (F : Type 0) : Type 0 where
  pub nudge_threshold : F
  pub escalate_threshold : F
  pub automation_confidence : F

-- A built intervention, or the error wrapped.
abbrev pub built : Result Intervention → Result (Option Intervention)
built (ok iv) = ok (some iv)
built (err e) = err e

module _ {F : Type 0} ⦃fl : Float64 F⦄ where
  abbrev pub default_config : Config F
  default_config = record {
    nudge_threshold = fl.hundredths 50;
    escalate_threshold = fl.hundredths 85;
    automation_confidence = fl.hundredths 95;
  }

  -- The loop over `Factors[1:]`: a later factor wins only if it is heavier.
  unfoldable pub heaviest : RiskFactor F → List (RiskFactor F) → RiskFactor F
  heaviest top [] = top
  heaviest top (f ∷ fs) = heaviest (if fl.lt top.weight f.weight then f else top) fs

  unfoldable pub top_reason : RiskAssessment F → String
  unfolding heaviest
  top_reason a = elim a.factors [
    | [] ↦ "Risk threshold exceeded."
    | f ∷ fs ↦ (heaviest f fs).reason
  ]

  -- The `switch`; `nudge` is the value before it.
  unfoldable pub choose : Config F → RiskAssessment F → InterventionType
  choose cfg a =
      if fl.le cfg.escalate_threshold a.score
      then escalation
      else if fl.le cfg.automation_confidence a.confidence && fl.le cfg.nudge_threshold a.score
      then automation
      else nudge

  module _ (sprintf : String → F → F → String → String) where
    -- `sprintf` is the `fmt.Sprintf` of the message over the description, the two numbers and the
    -- reason; `id` is what `uuid.New()` draws in `NewIntervention`.
    unfoldable pub maybe_intervene :
        Config F → Uuid → Commitment F → RiskAssessment F → Time → Result (Option Intervention)
    unfolding new_intervention
    maybe_intervene cfg id c a now =
        if fl.lt a.score cfg.nudge_threshold
        then ok none
        else built (
            new_intervention id (choose cfg a)
              (sprintf c.description a.score a.confidence (top_reason a)) (some c.id) none none now)
