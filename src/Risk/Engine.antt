-- ===== src/Risk/Engine.antt =====
-- internal/risk/engine.go: the additive score.
pub mod Bounds
pub mod Monotone
pub mod Factors
pub mod Defaults
use nous.Prelude.{
  ℕ, ◌*◌, Bool, true, false, Option, none, some, String, List, [], ◌∷◌, ◌++◌, if◌then◌else◌,
}
use nous.Prelude.Int.{pos, leb_ℤ}
use nous.Prelude.Time.{Time, Duration, after, sub, hour}
use nous.Prelude.Float.{Float64}
use nous.Domain.Types.{ChronosSignal, MemoryRef}
use nous.Domain.Commitment.{Commitment}
use nous.Risk.Types.{RiskFactor, RiskAssessment}

pub record Config (F : Type 0) : Type 0 where
  pub overdue_weight : F
  pub due_soon_weight : F
  pub due_soon_window : Duration
  pub confidence_weight : F
  pub signal_weight : F

-- A score and the factors that made it up so far.
pub record Tally (F : Type 0) : Type 0 where
  pub score : F
  pub factors : List (RiskFactor F)

module _ {F : Type 0} ⦃fl : Float64 F⦄ where
  abbrev pub default_config : Config F
  default_config = record {
    overdue_weight = fl.hundredths 60;
    due_soon_weight = fl.hundredths 30;
    due_soon_window = pos (2 * hour);
    confidence_weight = fl.hundredths 20;
    signal_weight = fl.hundredths 15;
  }

  -- `score += w; factors = append(factors, RiskFactor{...})`
  unfoldable pub charge : Tally F → String → F → String → Tally F
  charge t type w reason = record {
    score = fl.add t.score w;
    factors = t.factors ++ record { type = type; weight = w; reason = reason } ∷ [];
  }

  -- The `switch` on the due time.
  unfoldable pub due_factor : Config F → Option Time → Time → Tally F → Tally F
  unfolding charge
  due_factor cfg none now t = t
  due_factor cfg (some due) now t =
      if after now due
      then charge t "overdue" cfg.overdue_weight "Commitment is past its due time."
      else if leb_ℤ (sub due now) cfg.due_soon_window
      then charge t "due_soon" cfg.due_soon_weight "Commitment is due within the soon-window."
      else t

  unfoldable pub confidence_factor : Config F → F → Tally F → Tally F
  unfolding charge
  confidence_factor cfg confidence t =
      if fl.lt (fl.hundredths 0) confidence
      then charge t "confidence" (fl.mul confidence cfg.confidence_weight)
          "Commitment is high-confidence; tracked strictly."
      else t

  unfoldable pub signal_factor : Config F → List (ChronosSignal F) → Tally F → Tally F
  unfolding charge
  signal_factor cfg [] t = t
  signal_factor cfg (s ∷ signals) t =
      charge t "chronos_signal" cfg.signal_weight
        "Chronos detected a temporal pattern matching this commitment."

  -- `if score > 1 { score = 1 }; if score < 0 { score = 0 }`
  unfoldable pub clamp : F → F
  clamp score =
      let capped : F = if fl.lt (fl.hundredths 100) score then fl.hundredths 100 else score in
      if fl.lt capped (fl.hundredths 0) then fl.hundredths 0 else capped

  -- The three charges in their order, before the clamp.
  unfoldable pub tally : Config F → Commitment F → List (ChronosSignal F) → Time → Tally F
  unfolding due_factor confidence_factor signal_factor
  tally cfg c signals now = signal_factor cfg signals (
      confidence_factor cfg c.confidence
        (due_factor cfg c.due_at now (record { score = fl.hundredths 0; factors = [] })))

  -- The memories are accepted and not read.
  unfoldable pub evaluate_commitment :
      Config F → Commitment F → List (ChronosSignal F) → List MemoryRef → Time → RiskAssessment F
  unfolding tally clamp
  evaluate_commitment cfg c signals memories now = record {
    score = clamp (tally cfg c signals now).score;
    factors = (tally cfg c signals now).factors;
    confidence = c.confidence;
  }

  -- `DueSoonWindow.Seconds()` is a float that the proofs do not read.
  unfoldable pub weights : (Duration → F) → Config F → List (String × F)
  weights seconds cfg =
      ("overdue", cfg.overdue_weight)
      ∷ ("due_soon", cfg.due_soon_weight)
      ∷ ("due_soon_window_seconds", seconds cfg.due_soon_window)
      ∷ ("confidence", cfg.confidence_weight)
      ∷ ("signal", cfg.signal_weight)
      ∷ []
